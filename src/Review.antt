-- ===== src/Review.antt =====
-- mcp/src/compliance_mcp/review_cli.py: the approval and the rejection of a draft by a person. The
-- check of an identity token is a parameter, and what is printed is left out.
pub mod FourEyes
pub mod Logged
pub mod Export
use regulatory_compliance_he.Prelude.{
  Text, lit, ℕ, Option, none, some, Bool, true, false, List, [], ◌∷◌, ◌++◌, Result, ok, err, lower,
  ◌==◌, is_empty, if◌then◌else◌,
}
use regulatory_compliance_he.Prelude.Map.{Dict}
use regulatory_compliance_he.Json.{Json, str}
use regulatory_compliance_he.Models.{User, DraftStatus, approved, rejected, status_value, Draft}
use regulatory_compliance_he.Audit.Record.{Entry}
use regulatory_compliance_he.Audit.Writer.{AuditError, AuditLog, Disk, Source}
use regulatory_compliance_he.Audit.Append.{write}
use regulatory_compliance_he.Directory.{
  DirectoryError, access_denied, load_error, UsersFile, Directory, require_approver, read_version,
}
use regulatory_compliance_he.Drafts.{DraftStore, DraftError, conflict, decide}
use regulatory_compliance_he.Drafts

pub data ReviewIdentityMode : Type 0 where
  oidc dev : ReviewIdentityMode

-- The arguments of `approve` and `reject`, and the user of the operating system.
pub record Args : Type 0 where
  pub approve : Bool
  pub draft_id : Text
  pub id_token : Option Text
  pub as_upn : Option Text
  pub note : Text
  pub os_user : Text

pub record World : Type 0 where
  pub disk : Disk
  pub directory : Directory
  pub drafts : DraftStore

-- What the command reads from outside: the users file at its two reloads, the time of the decision,
-- and the source of the record.
pub record Outside : Type 0 where
  pub file : UsersFile
  pub checked_at : ℕ
  pub file_then : UsersFile
  pub version_at : ℕ
  pub now : Text
  pub source : Source

-- `AccessDenied` and `DraftConflict`, and every other exception, which leaves the command.
pub data Refusal : Type 0 where
  refused : Text → Refusal
  crashed : Refusal

pub data Crash : Type 0 where
  uncaught : Crash

abbrev pub given : Option Text → Option Text
given none = none
given (some []) = none
given (some (c ∷ s)) = some (c ∷ s)

abbrev pub decision_of : Args → DraftStatus
decision_of args = if args.approve then approved else rejected

-- `args.as_upn or "<id-token>"`
abbrev presented_or : Option Text → Text
presented_or none = lit "<id-token>"
presented_or (some t) = t

abbrev pub presented : Args → Text
presented args = presented_or (given args.as_upn)

abbrev required : Option Text → Text → Result Text Text
required none m = err m
required (some t) m = ok t

abbrev verified : (Text → Result Text Text) → Option Text → Result Text Text
verified username none = err (lit "this environment requires --id-token; --as is not accepted")
verified username (some t) = username t

-- `_approver_identity`; an error is the text of an `AccessDenied`.
unfoldable pub approver_identity :
    (Text → Result Text Text) → ReviewIdentityMode → Args → Result Text Text
approver_identity username oidc args = verified username (given args.id_token)
approver_identity username dev args =
    required (given args.as_upn) (lit "dev mode expects --as <upn>")

abbrev pub four_eyes : Text
four_eyes = lit "four-eyes: a draft cannot be approved by its requester"

abbrev pub no_draft : Args → Text
no_draft args = lit "no draft " ++ args.draft_id

tool_name : Args → Text
tool_name args = lit "draft_" ++ status_value (decision_of args)

-- The records of a decision and of a refusal.
unfoldable pub decided_entry : Args → Text → User → Draft → Entry
unfolding tool_name
decided_entry args version approver draft = record {
  requester = approver.upn;
  tool = tool_name args;
  args =
      (lit "draft_id", str args.draft_id)
      ∷ (lit "content_sha256", str draft.content_sha256)
      ∷ (lit "note", str args.note)
      ∷ (lit "os_user", str args.os_user)
      ∷ [];
  outcome = lit "ok";
  result_summary = args.draft_id ++ (lit " " ++ status_value (decision_of args));
  session_id = [];
  directory_version = version;
}

unfoldable pub refused_entry : Args → Text → Text → Entry
unfolding tool_name
refused_entry args version message = record {
  requester = presented args;
  tool = tool_name args;
  args = (lit "draft_id", str args.draft_id) ∷ (lit "os_user", str args.os_user) ∷ [];
  outcome = lit "denied";
  result_summary = message;
  session_id = [];
  directory_version = version;
}

module _ (sha256 : Text → Text) (hmac : Text → Text → Text)
    (parse_users : Text → Option (List User)) (username : Text → Result Text Text)
    (mode : ReviewIdentityMode) (log : AuditLog) (args : Args) (outside : Outside) where
  abbrev pub decided :
      User → Result DraftError Draft × DraftStore → World → Result Refusal (User × Draft) × World
  decided approver (ok draft, drafts) w = (ok (approver, draft), record w { drafts = drafts })
  decided approver (err (conflict m), drafts) w = (err (refused m), record w { drafts = drafts })
  decided approver (err _, drafts) w = (err crashed, record w { drafts = drafts })

  abbrev pub found : User → Option Draft → World → Result Refusal (User × Draft) × World
  found approver none w = (err (refused (no_draft args)), w)
  found approver (some draft) w =
      if lower draft.requester == lower approver.upn
      then (err (refused four_eyes), w)
      else decided approver
          (decide args.draft_id (decision_of args) approver.upn args.note outside.now w.drafts) w

  abbrev pub authorised :
      Result DirectoryError User × Directory → World → Result Refusal (User × Draft) × World
  authorised (err (access_denied m), d) w = (err (refused m), record w { directory = d })
  authorised (err load_error, d) w = (err crashed, record w { directory = d })
  authorised (ok approver, d) w =
      found approver (Drafts.get w.drafts args.draft_id) (record w { directory = d })

  abbrev pub identified : Result Text Text → World → Result Refusal (User × Draft) × World
  identified (err m) w = (err (refused m), w)
  identified (ok upn) w =
      authorised
        (require_approver sha256 parse_users upn outside.checked_at outside.file w.directory) w

  -- The `try` block up to the record.
  unfoldable pub attempt : World → Result Refusal (User × Draft) × World
  attempt w = identified (approver_identity username mode args) w

  abbrev pub wrote : ℕ → Result AuditError (Dict Json) × Disk → World → Result Crash ℕ × World
  wrote code (ok rec, disk) w = (ok code, record w { disk = disk })
  wrote code (err e, disk) w = (err uncaught, record w { disk = disk })

  abbrev pub versioned :
      ℕ → (Text → Entry) → Result DirectoryError Text × Directory → World → Result Crash ℕ × World
  versioned code entry (err e, d) w = (err uncaught, record w { directory = d })
  versioned code entry (ok version, d) w =
      wrote code (write sha256 hmac log outside.source (entry version) w.disk)
        (record w { directory = d })

  -- The record with the version in force, and the exit code.
  unfoldable pub recorded : ℕ → (Text → Entry) → World → Result Crash ℕ × World
  recorded code entry w =
      versioned code entry
        (read_version sha256 parse_users outside.version_at outside.file_then w.directory) w

  abbrev pub closed : Result Refusal (User × Draft) × World → Result Crash ℕ × World
  closed (ok (approver, draft), w) = recorded 0 (λ v. decided_entry args v approver draft) w
  closed (err (refused m), w) = recorded 2 (λ v. refused_entry args v m) w
  closed (err crashed, w) = (err uncaught, w)

  -- `main` for `approve` and `reject`
  unfoldable pub review : World → Result Crash ℕ × World
  review w = closed (attempt w)
