-- ===== src/Lib.antt =====
-- The compliance agent's MCP server: mcp/src/compliance_mcp. Analysts call read-only tools over
-- the systems of record and may queue drafts; people approve drafts; an append-only audit log
-- keeps one record of every call.
--
-- How the parts fit: a tool call enters the wrapper `audited` (service.py), which resolves the
-- caller in the directory (directory.py), charges the rate limiter (ratelimit.py), runs the body
-- over the systems of record (store.py) and the drafts (drafts.py, draft_checks.py), and writes
-- the record (audit.py).
--
-- - Prelude: tests, lists, texts as lists of code points (`str.lower` and `str.upper` change the
--   letters of ASCII only, where Python's change those of Unicode; this concerns the keys of the
--   directory, the comparison of names and the names of headers), dictionaries as association
--   lists, integers, the text order, the stable sort and its interplay with filters.
-- - Models: mcp/src/compliance_mcp/models.py, one record or data type for each class.
-- - RateLimit: ratelimit.py. `check` takes the time as an argument; tokens are counted in units
--   of which one call costs 60 * 10^9, so that the refill in nanoseconds is exact where the code
--   rounds floats; at the moment at which a token is just refilled the code may still refuse.
--   Bounds and Fairness hold the theorems.
-- - Drafts: drafts.py. The table is the list of its rows, and an operation one transaction from
--   table to table. Invariant, Decisions, History and Queries hold the theorems; History is
--   about any order of the writes of several processes.
-- - Directory: directory.py. `load`, `resolve`, `require_group`, `require_approver` and
--   `version` pass the cache on. The parse of the users file and SHA-256 are parameters. Index,
--   Access and Freshness hold the theorems.
-- - Json, Audit: audit.py. Json prints canonical JSON; Scanner, Balanced, Quoting, Injective and
--   Lookup below it are about what the text determines, OneLine about its characters. Record has
--   the record and its seals, Writer and Append `write` and `_rotate`, Verifier `chain_files`
--   and `verify`. A file is a list of lines, a line the dictionary that it parses to with its
--   length in bytes. SHA-256 and HMAC are parameters, of which is assumed only that a MAC is not
--   empty. Chain, Walks, Acceptance, Sealing, Preservation, Writes, Rotation, Log, Tamper and
--   LastLine hold the theorems; Forwarder is the spool with its sender, Delivery what it
--   delivers, Tail the read of the last line on the bytes of a file, Lines the text of a file
--   and its lines, and Cli the command line. The names of rotated files are assumed to be later
--   than the ones before, which the stamp in nanoseconds gives on a clock that does not run
--   backwards.
-- - Store: store.py. Dates has the calendar, FrontMatter the parse of a policy file, Policies,
--   Controls, Tickets, Feed and Attestations the adapters.
-- - DraftChecks: draft_checks.py. Patterns has the regular expressions as matchers; the letters
--   beyond ASCII that count as word characters are a parameter.
-- - Service: service.py. Failure has the exceptions, Evidence the manifest, Request, Create and
--   Tools the bodies, Audited the wrapper. OneRecord, Access, DraftOnly and Gaps hold the
--   theorems. The JSON that pydantic makes is a parameter.
-- - Server: server.py, the identity of a caller (Spoofing) and the middleware in front of the
--   MCP application (Edge).
-- - Oidc: oidc.py, the identity in a token; the token library is a parameter, with the
--   algorithms, the audience, the issuer, the required claims and the leeway that the code
--   passes to it.
-- - Settings: settings.py. The environment is a function; Numbers is the reading of an integer,
--   Guards and Headers hold the theorems.
-- - Logging: logging_setup.py, with the JSON printer of Json.Plain.
-- - Export: evidence_export.py, with the JSON printer of Json.Pretty. A pack is the list of its
--   files in order. Approved, Cover and Pack hold the theorems.
-- - Review: review_cli.py, the commands approve and reject, and export in Review.Export.
--   FourEyes, Logged and Traced hold the theorems; the check of an identity token is a
--   parameter, which gives a name or a refusal; the exception for OIDC settings that are not
--   complete, which leaves the command, is not among its answers.
-- - Eval: eval/validate_extraction.py, the score of an extraction, with the ratios as pairs of
--   numbers. Scores and GoldSet hold the theorems.
-- - Feed: feed_fetcher.py. Xml has the trees and the text of a node, Parse the releases of a
--   feed, Feed the merge into the cache, Fetch the command; Merge and Fetch hold the theorems.
--   The HTTP library is a parameter, which follows no redirect.
-- - Retention: admin_cli.py, the purge; whether a file is older than the cut-off is an argument.
--   Deletion and History hold the theorems.
-- - Examples: the theorems at concrete data.
--
-- All loops are structural recursions over lists and texts, except two that take fuel: the
-- printing of a number, one more than the number, which has fewer digits; and the read of a log
-- backwards, as many rounds as the file has bytes, where each round reads one at least.
--
-- Not modelled: threads and locks within one process (each operation is atomic), two processes
-- that rotate the log at once, the registration of the tools (server.py), the parsers of XML and
-- of dates, the printing of the command lines, the report of the evaluation, and the scripts
-- under scripts.
pub mod Prelude
pub mod Models
pub mod RateLimit
pub mod Drafts
pub mod Directory
pub mod Json
pub mod Logging
pub mod Audit
pub mod Store
pub mod DraftChecks
pub mod Service
pub mod Server
pub mod Settings
pub mod Oidc
pub mod Export
pub mod Eval
pub mod Retention
pub mod Feed
pub mod Review
pub mod Examples
