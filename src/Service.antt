-- ===== src/Service.antt =====
-- mcp/src/compliance_mcp/service.py: the tools behind their wrapper. `Failure` holds what a tool may
-- raise, `Evidence` the manifest and its gaps, `Request` the calls, `Create` and
-- `Tools` the bodies, and `Audited` the wrapper.
pub mod Failure
pub mod Evidence
pub mod Gaps
pub mod Request
pub mod Create
pub mod Tools
pub mod Audited
pub mod OneRecord
pub mod Access
pub mod DraftOnly
