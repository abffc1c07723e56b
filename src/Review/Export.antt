-- ===== src/Review/Export.antt =====
-- `_export` of mcp/src/compliance_mcp/review_cli.py: the command that writes the pack of an approved
-- index. The lines of the active log, the systems of record and the size of a zip file are arguments.
pub mod Traced
use regulatory_compliance_he.Prelude.{
  Text, lit, decimal, ℕ, Option, none, some, List, [], ◌∷◌, ◌++◌, Result, ok, err,
}
use regulatory_compliance_he.Prelude.Map.{Dict, put}
use regulatory_compliance_he.Json.{Json, str}
use regulatory_compliance_he.Models.{User, Ticket, Draft, EvidenceManifest}
use regulatory_compliance_he.Audit.Record.{Entry}
use regulatory_compliance_he.Audit.Writer.{AuditError, AuditLog, Disk, Source}
use regulatory_compliance_he.Audit.Append.{write}
use regulatory_compliance_he.Directory.{DirectoryError, UsersFile, Directory, read_version}
use regulatory_compliance_he.Drafts.{DraftStore}
use regulatory_compliance_he.Drafts
use regulatory_compliance_he.Service.Failure.{Failure}
use regulatory_compliance_he.Service.Evidence.{Systems, compute_manifest}
use regulatory_compliance_he.Export.{
  ExportError, export_refused, os_error, period_from_title, audit_lines_for, build_pack,
}
use regulatory_compliance_he.Review.{Refusal, refused, crashed, Crash, uncaught}

-- The draft, the path of the zip file and the user of the operating system.
pub record ExportArgs : Type 0 where
  pub draft_id : Text
  pub zip_path : Text
  pub exporter : Text

-- What the command can change: the log, the cache of the directory and the packs by their paths.
pub record ExportWorld : Type 0 where
  pub disk : Disk
  pub directory : Directory
  pub packs : Dict (Dict Text)

-- What the command reads from outside.
pub record ExportInput : Type 0 where
  pub drafts : DraftStore
  pub systems : Systems
  pub log_file : Option Text
  pub exported_at : Text
  pub file : UsersFile
  pub version_at : ℕ
  pub source : Source

abbrev pub no_export_draft : ExportArgs → Text
no_export_draft args = lit "no draft " ++ args.draft_id

abbrev pub no_period : Text
no_period = lit "draft title does not identify a control and period"

unfoldable pub exported_entry : ExportArgs → ℕ → Text → Text → Entry
exported_entry args size manifest_sha256 version = record {
  requester = args.exporter;
  tool = lit "evidence_export";
  args =
      (lit "draft_id", str args.draft_id)
      ∷ (lit "path", str args.zip_path)
      ∷ (lit "manifest_sha256", str manifest_sha256)
      ∷ [];
  outcome = lit "ok";
  result_summary = args.draft_id ++ (lit " exported (" ++ (decimal size ++ lit " bytes)"));
  session_id = [];
  directory_version = version;
}

unfoldable pub export_refused_entry : ExportArgs → Text → Text → Entry
export_refused_entry args message version = record {
  requester = args.exporter;
  tool = lit "evidence_export";
  args = (lit "draft_id", str args.draft_id) ∷ [];
  outcome = lit "denied";
  result_summary = message;
  session_id = [];
  directory_version = version;
}

module _ (sha256 : Text → Text) (hmac : Text → Text → Text)
    (parse_users : Text → Option (List User)) (manifest_json : EvidenceManifest → Text)
    (manifest_json_indented : EvidenceManifest → Text) (ticket_json : Ticket → Text)
    (read : Text → Option Text) (zip_bytes : Dict Text → ℕ) (log : AuditLog) (args : ExportArgs)
    (input : ExportInput) where
  abbrev pub built :
      EvidenceManifest
      → Result ExportError (Dict Text)
      → Result Refusal (EvidenceManifest × Dict Text)
  built manifest (ok pack) = ok (manifest, pack)
  built manifest (err (export_refused m)) = err (refused m)
  built manifest (err os_error) = err crashed

  abbrev pub with_manifest :
      Draft
      → Text
      → Result Failure (Option EvidenceManifest)
      → Result Refusal (EvidenceManifest × Dict Text)
  with_manifest draft control (err e) = err crashed
  with_manifest draft control (ok none) = err (refused (lit "unknown control " ++ control))
  with_manifest draft control (ok (some manifest)) = built manifest (
      build_pack sha256 manifest_json_indented read draft manifest
        (audit_lines_for args.draft_id input.log_file) args.exporter input.exported_at)

  abbrev pub with_period :
      Draft → Option (Text × Text × Text) → Result Refusal (EvidenceManifest × Dict Text)
  with_period draft none = err (refused no_period)
  with_period draft (some (control, start, end)) =
      with_manifest draft control
        (compute_manifest sha256 manifest_json ticket_json input.systems control start end)

  abbrev pub with_draft : Option Draft → Result Refusal (EvidenceManifest × Dict Text)
  with_draft none = err (refused (no_export_draft args))
  with_draft (some draft) = with_period draft (period_from_title draft.title)

  -- The `try` block up to the write of the pack.
  unfoldable pub pack_for : Result Refusal (EvidenceManifest × Dict Text)
  pack_for = with_draft (Drafts.get input.drafts args.draft_id)

  abbrev pub export_wrote :
      ℕ → Result AuditError (Dict Json) × Disk → ExportWorld → Result Crash ℕ × ExportWorld
  export_wrote code (ok rec, disk) w = (ok code, record w { disk = disk })
  export_wrote code (err e, disk) w = (err uncaught, record w { disk = disk })

  abbrev pub export_versioned :
      ℕ
      → (Text → Entry)
      → Result DirectoryError Text × Directory
      → ExportWorld
      → Result Crash ℕ × ExportWorld
  export_versioned code entry (err e, d) w = (err uncaught, record w { directory = d })
  export_versioned code entry (ok version, d) w =
      export_wrote code (write sha256 hmac log input.source (entry version) w.disk)
        (record w { directory = d })

  unfoldable pub export_recorded : ℕ → (Text → Entry) → ExportWorld → Result Crash ℕ × ExportWorld
  export_recorded code entry w =
      export_versioned code entry
        (read_version sha256 parse_users input.version_at input.file w.directory) w

  -- The pack is written before its record.
  unfoldable pub export_closed :
      Result Refusal (EvidenceManifest × Dict Text) → ExportWorld → Result Crash ℕ × ExportWorld
  export_closed (ok (manifest, pack)) w =
      export_recorded 0 (exported_entry args (zip_bytes pack) manifest.manifest_sha256)
        (record w { packs = put w.packs args.zip_path pack })
  export_closed (err (refused m)) w = export_recorded 2 (export_refused_entry args m) w
  export_closed (err crashed) w = (err uncaught, w)

  -- `_export`
  unfoldable pub export : ExportWorld → Result Crash ℕ × ExportWorld
  export w = export_closed pack_for w
