-- ===== src/Audit.antt =====
-- mcp/src/compliance_mcp/audit.py: the audit log. A file is the list of its lines; a line stands with
-- the dictionary that `json.loads` makes of it and with its length in bytes. SHA-256 and HMAC are
-- parameters, and what the writer reads from the clock and the random source is an argument.
pub mod Record
pub mod Writer
pub mod Append
pub mod Verifier
pub mod Chain
pub mod Walks
pub mod Acceptance
pub mod Sealing
pub mod Preservation
pub mod Writes
pub mod Rotation
pub mod Log
pub mod Forwarder
pub mod Delivery
pub mod Tail
pub mod LastLine
pub mod Tamper
pub mod Lines
pub mod Cli
