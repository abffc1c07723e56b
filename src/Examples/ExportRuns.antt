-- ===== src/Examples/ExportRuns.antt =====
-- The evidence pack of mcp/src/compliance_mcp/evidence_export.py and its export on concrete data.
use regulatory_compliance_he.Prelude.{
  Text, lit, ◌≡◌, ◌↔◌, refl, Option, some, false, List, [], ◌∷◌, ok, is_empty, length, ◌==◌,
}
use regulatory_compliance_he.Prelude.Map.{Dict, get}
use regulatory_compliance_he.Models.{
  User, Control, Policy, PolicyStatus, quarterly, Ticket, Decision, Draft, evidence_pack_index,
  approved, PolicyVersionRef, EvidenceManifest,
}
use regulatory_compliance_he.Audit.Record.{genesis}
use regulatory_compliance_he.Audit.Writer.{AuditLog}
use regulatory_compliance_he.Audit.Log.{no_files, no_files-IsLog}
use regulatory_compliance_he.Directory.{UsersFile, Directory, read_version}
use regulatory_compliance_he.Directory
use regulatory_compliance_he.Export.{build_pack}
use regulatory_compliance_he.Export.Approved.{IsExportable, build_pack-eq-ok}
use regulatory_compliance_he.Export.Pack.{IsSealed, build_pack-IsSealed}
use regulatory_compliance_he.Review.Export.{ExportArgs, ExportWorld, ExportInput, export}
use regulatory_compliance_he.Review.Export.Traced.{IsTraced, export-IsTraced}

abbrev hash_of : Text → Text
hash_of t = b'#' ∷ t

abbrev mac_of : Text → Text → Text
mac_of k h = lit "m"

mac_of_written : (k h : Text) → is_empty (mac_of k h) ≡ false
unfolding lit
mac_of_written k h = refl

abbrev access_text : Text
access_text = lit "# Access"

abbrev data_dir : Text → Option Text
data_dir source = get ((lit "policies/access.md", access_text) ∷ []) source

abbrev access_control : Control
access_control = record {
  control_id = lit "AC-1";
  name = lit "Access review";
  description = [];
  owner = [];
  test_frequency = quarterly;
  policies = lit "P-1" ∷ [];
  regulations = [];
  evidence = [];
}

abbrev access_ref : PolicyVersionRef
access_ref = record {
  policy_id = lit "P-1";
  version = lit "1";
  effective_date = lit "2025-01-01";
  title = lit "Access";
  source = lit "policies/access.md";
  sha256 = hash_of access_text;
}

abbrev access_manifest : EvidenceManifest
access_manifest = record {
  control = access_control;
  period_start = lit "2026-01-01";
  period_end = lit "2026-03-31";
  policy_versions = access_ref ∷ [];
  test_results = [];
  change_tickets = [];
  gaps = [];
  manifest_sha256 = lit "h";
}

abbrev by_eve : Decision
by_eve = record { by = lit "eve"; note = lit "complete"; at = lit "2026-04-02" }

abbrev index : Draft
index = record {
  draft_id = lit "D-7";
  kind = evidence_pack_index;
  title = lit "Evidence index AC-1 2026-01-01..2026-03-31";
  body = lit "Index with hash h";
  requester = lit "ana";
  session_id = [];
  related_ids = [];
  created = lit "2026-04-01";
  status = approved;
  content_sha256 = lit "c";
  decision = some by_eve;
}

abbrev plain : EvidenceManifest → Text
plain m = m.control.control_id

abbrev lines_of_log : List Text
lines_of_log = lit "{\"draft_id\": \"D-7\"}" ∷ []

build_pack-eq-ok_example :
    ((pack : Dict Text) × (build_pack hash_of plain data_dir index access_manifest lines_of_log
          (lit "ops")
          (lit "2026-04-03")
        ≡ ok pack))
    ↔ IsExportable hash_of plain data_dir index access_manifest
build_pack-eq-ok_example =
    build_pack-eq-ok hash_of plain data_dir index access_manifest lines_of_log (lit "ops")
      (lit "2026-04-03")

access_found : data_dir (lit "policies/access.md") ≡ some access_text
unfolding get lit ◌==◌
access_found = refl

abbrev packed :
    (pack : Dict Text) × (build_pack hash_of plain data_dir index access_manifest lines_of_log
        (lit "ops")
        (lit "2026-04-03")
      ≡ ok pack)
packed =
    (build_pack-eq-ok hash_of plain data_dir index access_manifest lines_of_log (lit "ops")
        (lit "2026-04-03")).1
      (refl, refl, (by_eve, refl), ((access_text, access_found, refl), tt))

build_pack-IsSealed_example :
    (decision : Decision) × (index.decision ≡ some decision)
    × IsSealed hash_of plain data_dir index decision access_manifest lines_of_log
        (lit "ops")
        (lit "2026-04-03")
        packed.0
build_pack-IsSealed_example =
    build_pack-IsSealed hash_of plain data_dir index access_manifest lines_of_log (lit "ops")
      (lit "2026-04-03") packed.0 packed.1

abbrev export_log : AuditLog
export_log = record {
  stem = lit "audit";
  suffix = lit ".jsonl";
  agent_id = lit "human-review-cli";
  hmac_key = [];
  rotate_bytes = 50_000_000;
  anchor_every = 100;
  forwarding = false;
}

abbrev export_args : ExportArgs
export_args = record { draft_id = lit "D-7"; zip_path = lit "out/D-7.zip"; exporter = lit "ops" }

abbrev export_world : ExportWorld
export_world = record {
  disk = no_files;
  directory = record { ttl = 60; users = []; version = lit "v"; mtime = 5; checked_at = 100 };
  packs = [];
}

abbrev access_policy : Policy
access_policy = record {
  policy_id = lit "P-1";
  version = lit "1";
  effective_date = lit "2025-01-01";
  status = PolicyStatus.approved;
  title = lit "Access";
  owner = [];
  regulations = [];
  controls = [];
  source = lit "policies/access.md";
  sha256 = hash_of access_text;
  sections = [];
}

abbrev export_input : ExportInput
export_input = record {
  drafts =
      record {
        draft_id = lit "D-7";
        kind = evidence_pack_index;
        title = index.title;
        body = index.body;
        requester = lit "ana";
        session_id = [];
        related_ids = [];
        created = lit "2026-04-01";
        status = approved;
        content_sha256 = lit "c";
        decision_by = some (lit "eve");
        decision_note = some (lit "complete");
        decision_at = some (lit "2026-04-02");
      }
      ∷ [];
  systems = record {
    policies = access_policy ∷ [];
    controls = (lit "AC-1", access_control) ∷ [];
    tests = [];
    tickets = [];
  };
  log_file = some (lit "{\"draft_id\": \"D-7\"}\n");
  exported_at = lit "2026-04-03";
  file = record { mtime = 5; raw = [] };
  version_at = 110;
  source = record {
    moment = record { uuid = lit "u1"; ts = lit "2026-04-03" };
    stamp = lit "20260403";
    marker = record { uuid = lit "u2"; ts = lit "2026-04-03" };
  };
}

abbrev nobody : Text → Option (List User)
nobody raw = some []

abbrev ticket_text : Ticket → Text
ticket_text t = t.ticket_id

version_read :
    (read_version hash_of nobody export_input.version_at export_input.file export_world.directory).0
    ≡ ok (lit "v")
unfolding read_version Directory.load
version_read = refl

export-IsTraced_example :
    IsTraced hash_of mac_of nobody plain plain ticket_text data_dir length export_log export_args
      export_input mac_of_written
      (lit "v")
      export_world
      (export hash_of mac_of nobody plain plain ticket_text data_dir length export_log export_args
        export_input export_world)
export-IsTraced_example =
    export-IsTraced hash_of mac_of nobody plain plain ticket_text data_dir length export_log
      export_args export_input mac_of_written (lit "v") export_world genesis version_read tt
      (no_files-IsLog hash_of mac_of export_log mac_of_written)
