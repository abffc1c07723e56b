-- ===== src/Models.antt =====
-- mcp/src/compliance_mcp/models.py: the types of what crosses a boundary. The children hold the
-- families of the file: identity, systems of record, drafts and tool results.
mod Identity
mod Records
mod Drafts
mod Results
pub use Identity.*
pub use Records.*
unfoldable pub use Drafts.*
pub use Results.*
