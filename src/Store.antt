-- ===== src/Store.antt =====
-- mcp/src/compliance_mcp/store.py: the read-only adapters over the systems of record.
pub mod Dates
pub mod FrontMatter
pub mod Policies
pub mod Controls
pub mod Tickets
pub mod Feed
pub mod Attestations
