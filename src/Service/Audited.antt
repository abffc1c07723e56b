-- ===== src/Service/Audited.antt =====
-- The wrapper `audited` of mcp/src/compliance_mcp/service.py: version, identity, rate limit, body,
-- one audit record, and the translation of every exception.
use regulatory_compliance_he.Prelude.{Text, lit, ℕ, Option, none, some, List, Result, ok, err}
use regulatory_compliance_he.Prelude.Map.{Dict}
use regulatory_compliance_he.Json.{Json}
use regulatory_compliance_he.Models.{CallerIdentity, User, ToolResult, ToolError, summary}
use regulatory_compliance_he.Audit.Record.{Entry}
use regulatory_compliance_he.Audit.Writer.{AuditError, AuditLog, Disk, Source}
use regulatory_compliance_he.Audit.Append.{write}
use regulatory_compliance_he.Directory.{
  DirectoryError, access_denied, load_error, UsersFile, Directory, read_version, resolve,
  require_group,
}
use regulatory_compliance_he.RateLimit.{TokenBucketLimiter, RateLimited, rate_limit_exceeded, check}
use regulatory_compliance_he.Drafts.{DraftStore}
use regulatory_compliance_he.Service.Failure.{
  Failure, denied, limited, other, outcome_of, record_summary, tool_error,
}

-- What the service changes.
pub record World : Type 0 where
  pub disk : Disk
  pub directory : Directory
  pub limiter : TokenBucketLimiter
  pub drafts : DraftStore

-- What one call reads from outside: the users file at its two reloads with the times of these, the
-- clock of the limiter, and the sources of the record and of a second record, should the first fail.
pub record Outside : Type 0 where
  pub file : UsersFile
  pub version_at : ℕ
  pub file_then : UsersFile
  pub resolve_at : ℕ
  pub tick : ℕ
  pub source : Source
  pub retry : Source

-- The fixed part of a call.
pub record Call : Type 0 where
  pub caller : CallerIdentity
  pub tool : Text
  pub group : Option Text
  pub persisted : Dict Json

-- What leaves the wrapper as an exception.
pub data Uncaught : Type 0 where
  no_directory : Uncaught
  audit_failed : AuditError → Uncaught

pub data Reply : Type 0 where
  result : ToolResult → Reply
  failure : ToolError → Reply

-- The record of a call.
unfoldable pub entry_for : Call → Text → Text → Text → Text → Entry
entry_for call version requester outcome summary_ = record {
  requester = requester;
  tool = call.tool;
  args = call.persisted;
  outcome = outcome;
  result_summary = summary_;
  session_id = call.caller.session_id;
  directory_version = version;
}

-- The record of a refused call, and that of an answered one.
abbrev pub refusal : Call → Text → Failure → Entry
refusal call version f =
    entry_for call version call.caller.requester (outcome_of f) (record_summary f)

abbrev pub answer : Call → Text → User → ToolResult → Entry
answer call version user r = entry_for call version user.upn (lit "ok") (summary r)

abbrev pub failure_of : DirectoryError → Failure
failure_of (access_denied m) = denied m
failure_of load_error = other

module _ (sha256 : Text → Text) (hmac : Text → Text → Text)
    (parse_users : Text → Option (List User)) (log : AuditLog) (call : Call)
    (body : User → DraftStore → Result Failure ToolResult × DraftStore) (outside : Outside) where
  -- `require_group` where the tool names a group, and `resolve` where it names none.
  unfoldable pub authorise_in : Option Text → Directory → Result DirectoryError User × Directory
  authorise_in none d =
      resolve sha256 parse_users call.caller.requester outside.resolve_at outside.file_then d
  authorise_in (some group) d =
      require_group sha256 parse_users call.caller.requester group outside.resolve_at
        outside.file_then d

  unfoldable pub authorise : Directory → Result DirectoryError User × Directory
  unfolding authorise_in
  authorise d = authorise_in call.group d

  -- The `try` block up to the record: who called, and the answer.
  abbrev pub bodied :
      User
      → Result Failure ToolResult × DraftStore
      → World
      → Result Failure (User × ToolResult) × World
  bodied user (err f, drafts) w = (err f, record w { drafts = drafts })
  bodied user (ok r, drafts) w = (ok (user, r), record w { drafts = drafts })

  abbrev pub rated :
      User
      → Result RateLimited (Unit {0}) × TokenBucketLimiter
      → World
      → Result Failure (User × ToolResult) × World
  rated user (err (rate_limit_exceeded m), limiter) w =
      (err (limited m), record w { limiter = limiter })
  rated user (ok _, limiter) w = bodied user (body user w.drafts) (record w { limiter = limiter })

  abbrev pub authorised :
      Result DirectoryError User × Directory → World → Result Failure (User × ToolResult) × World
  authorised (err e, d) w = (err (failure_of e), record w { directory = d })
  authorised (ok user, d) w =
      rated user (check w.limiter user.upn outside.tick) (record w { directory = d })

  unfoldable pub attempt : World → Result Failure (User × ToolResult) × World
  attempt w = authorised (authorise w.directory) w

  -- An `except` clause: the record, then the translation.
  abbrev pub closed :
      Failure → Result AuditError (Dict Json) × Disk → World → Result Uncaught Reply × World
  closed f (ok rec, disk) w = (ok (failure (tool_error f)), record w { disk = disk })
  closed f (err e, disk) w = (err (audit_failed e), record w { disk = disk })

  unfoldable pub refuse : Text → Source → Failure → World → Result Uncaught Reply × World
  refuse version source f w =
      closed f (write sha256 hmac log source (refusal call version f) w.disk) w

  -- The record of an answer; if it fails, the last `except` clause.
  abbrev pub answered :
      Text
      → ToolResult
      → Result AuditError (Dict Json) × Disk
      → World
      → Result Uncaught Reply × World
  answered version r (ok rec, disk) w = (ok (result r), record w { disk = disk })
  answered version r (err e, disk) w = refuse version outside.retry other (record w { disk = disk })

  abbrev pub finish :
      Text → Result Failure (User × ToolResult) × World → Result Uncaught Reply × World
  finish version (ok (user, r), w) =
      answered version r (write sha256 hmac log outside.source (answer call version user r) w.disk)
        w
  finish version (err f, w) = refuse version outside.source f w

  abbrev pub started :
      Result DirectoryError Text × Directory → World → Result Uncaught Reply × World
  started (err e, d) w = (err no_directory, record w { directory = d })
  started (ok version, d) w = finish version (attempt (record w { directory = d }))

  -- `wrapper`
  unfoldable pub audited : World → Result Uncaught Reply × World
  audited w =
      started (read_version sha256 parse_users outside.version_at outside.file w.directory) w
