-- ===== src/Retention.antt =====
-- mcp/src/compliance_mcp/admin_cli.py: the retention purge. Whether a file is older than the cut-off
-- is an argument, as its time of change is no part of its lines; what is printed is left out.
pub mod Deletion
pub mod History
use regulatory_compliance_he.Prelude.{
  Text, lit, decimal, ℕ, ◌+◌, sort_by, Option, none, some, Bool, true, false, not, ◌&&◌, List, [],
  ◌∷◌, ◌++◌, map, keep, length, text_lt, Result, ok, err, if◌then◌else◌,
}
use regulatory_compliance_he.Prelude.Int.{ℤ, pos, negsuc}
use regulatory_compliance_he.Prelude.Map.{Dict}
use regulatory_compliance_he.Json.{Json, number, str, arr, texts}
use regulatory_compliance_he.Models.{pending, same_status}
use regulatory_compliance_he.Audit.Record.{Entry}
use regulatory_compliance_he.Audit.Writer.{Line, AuditError, AuditLog, Disk, Source}
use regulatory_compliance_he.Audit.Append.{write}
use regulatory_compliance_he.Audit.Verifier.{earlier}
use regulatory_compliance_he.Drafts.{Row, DraftStore}

-- `decision_at < ?` is not true of a missing time.
abbrev pub is_before : Text → Option Text → Bool
is_before cutoff none = false
is_before cutoff (some t) = text_lt t cutoff

-- `status != 'pending' AND decision_at < ?`
abbrev pub is_expired : Text → Row → Bool
is_expired cutoff row = not (same_status row.status pending) && is_before cutoff row.decision_at

unfoldable pub delete_expired : Text → DraftStore → DraftStore
delete_expired cutoff drafts = keep (λ row. not (is_expired cutoff row)) drafts

-- The rotated files that are past retention; the active one is not among them.
unfoldable pub expired_files : (Text → Bool) → Disk → Dict (List Line)
expired_files is_old disk = keep (λ f. is_old f.0) disk.rotated

unfoldable pub unlink : (Text → Bool) → Disk → Disk
unlink is_old disk = record disk { rotated = keep (λ f. not (is_old f.0)) disk.rotated }

show_days : ℤ → Text
show_days (pos n) = decimal n
show_days (negsuc n) = b'-' ∷ decimal (n + 1)

pub record PurgeArgs : Type 0 where
  pub days : ℤ
  pub cutoff : Text
  pub apply : Bool

-- The record of a purge; the files are named oldest first, as `chain_files` lists them.
pub purge_entry : PurgeArgs → ℕ → List Text → Entry
purge_entry p drafts files = record {
  requester = lit "operator";
  tool = lit "retention_purge";
  args =
      (lit "older_than_days", number p.days)
      ∷ (lit "cutoff", str p.cutoff)
      ∷ (lit "files", arr (texts files))
      ∷ [];
  outcome = lit "ok";
  result_summary =
      lit "purged "
      ++ (decimal drafts
          ++ (lit " draft(s) and "
              ++ (decimal (length files)
                  ++ (lit " rotated audit file(s) older than "
                      ++ (show_days p.days ++ lit " days")))));
  session_id = [];
  directory_version = [];
}

-- What the command changes.
pub record World : Type 0 where
  pub disk : Disk
  pub drafts : DraftStore

abbrev pub logged :
    Result AuditError (Dict Json) × Disk → DraftStore → Result AuditError (Unit {0}) × World
logged (ok rec, disk) drafts = (ok tt, record { disk = disk; drafts = drafts })
logged (err e, disk) drafts = (err e, record { disk = disk; drafts = drafts })

names_of : Dict (List Line) → List Text
names_of files = map (λ f. f.0) (sort_by earlier files)

-- `purge`: without `--apply` it changes nothing.
unfoldable pub purge :
    (Text → Text)
    → (Text → Text → Text)
    → AuditLog
    → Source
    → (Text → Bool)
    → PurgeArgs
    → World
    → Result AuditError (Unit {0}) × World
unfolding names_of
purge sha256 hmac log source is_old p w =
    if p.apply
    then logged
        (write sha256 hmac log source
          (purge_entry p (length (keep (is_expired p.cutoff) w.drafts))
            (names_of (expired_files is_old w.disk)))
          (unlink is_old w.disk))
        (delete_expired p.cutoff w.drafts)
    else (ok tt, w)
