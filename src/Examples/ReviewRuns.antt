-- ===== src/Examples/ReviewRuns.antt =====
-- An approval by mcp/src/compliance_mcp/review_cli.py on concrete data.
use regulatory_compliance_he.Prelude.{
  Text, lit, ◌≡◌, refl, Option, none, some, true, false, List, [], ◌∷◌, Result, ok, err, is_empty,
  any, find_first, lower, strip, ◌==◌,
}
use regulatory_compliance_he.Prelude.Map.{get}
use regulatory_compliance_he.Models.{User, person, control_finding_note, pending}
use regulatory_compliance_he.Audit.Record.{genesis}
use regulatory_compliance_he.Audit.Writer.{AuditLog}
use regulatory_compliance_he.Audit.Log.{no_files, no_files-IsLog}
use regulatory_compliance_he.Directory.{UsersFile, Directory, read_version, require_approver}
use regulatory_compliance_he.Directory
use regulatory_compliance_he.Drafts
use regulatory_compliance_he.Review.{dev, Args, World, Outside, approver_identity, attempt, review}
use regulatory_compliance_he.Review.FourEyes.{IsProper, review-IsProper}
use regulatory_compliance_he.Review.Logged.{IsAccounted, review-IsAccounted}

abbrev one_hash : Text → Text
one_hash t = lit "h"

abbrev one_mac : Text → Text → Text
one_mac k h = lit "m"

one_mac_written : (k h : Text) → is_empty (one_mac k h) ≡ false
unfolding lit
one_mac_written k h = refl

abbrev eve : User
eve = record {
  id = lit "9";
  upn = lit "eve";
  name = lit "Eve";
  groups = lit "compliance-approvers" ∷ [];
  active = true;
  kind = person;
}

abbrev parse_eve : Text → Option (List User)
parse_eve raw = some (eve ∷ [])

abbrev no_tokens : Text → Result Text Text
no_tokens t = err (lit "no provider")

abbrev review_log : AuditLog
review_log = record {
  stem = lit "audit";
  suffix = lit ".jsonl";
  agent_id = lit "human-review-cli";
  hmac_key = [];
  rotate_bytes = 50_000_000;
  anchor_every = 100;
  forwarding = false;
}

abbrev approval : Args
approval = record {
  approve = true;
  draft_id = lit "D-1";
  id_token = none;
  as_upn = some (lit "eve");
  note = lit "checked";
  os_user = lit "eve";
}

abbrev file1 : UsersFile
file1 = record { mtime = 5; raw = [] }

abbrev review_world : World
review_world = record {
  disk = no_files;
  directory = record {
    ttl = 60;
    users = (lit "eve", eve) ∷ [];
    version = lit "v";
    mtime = 5;
    checked_at = 100;
  };
  drafts =
      record {
        draft_id = lit "D-1";
        kind = control_finding_note;
        title = lit "t";
        body = lit "b";
        requester = lit "ana";
        session_id = [];
        related_ids = [];
        created = lit "2026-01-01";
        status = pending;
        content_sha256 = lit "h";
        decision_by = none;
        decision_note = none;
        decision_at = none;
      }
      ∷ [];
}

abbrev review_outside : Outside
review_outside = record {
  file = file1;
  checked_at = 110;
  file_then = file1;
  version_at = 111;
  now = lit "2026-01-02";
  source = record {
    moment = record { uuid = lit "u1"; ts = lit "2026-01-02" };
    stamp = lit "20260102";
    marker = record { uuid = lit "u2"; ts = lit "2026-01-02" };
  };
}

review-IsProper_example :
    IsProper one_hash one_mac parse_eve no_tokens dev review_log approval review_outside
      review_world
      (review one_hash one_mac parse_eve no_tokens dev review_log approval review_outside
        review_world)
review-IsProper_example =
    review-IsProper one_hash one_mac parse_eve no_tokens dev review_log approval review_outside
      review_world

version_then :
    (read_version one_hash parse_eve review_outside.version_at review_outside.file_then
      (attempt one_hash one_mac parse_eve no_tokens dev review_log approval review_outside
        review_world).1.directory).0
    ≡ ok (lit "v")
unfolding attempt read_version Directory.load approver_identity lit require_approver
    Directory.require_group Directory.resolve Directory.look_up Directory.key_of lower strip
    Directory.check_user get ◌==◌ Directory.check_group Directory.in_group any
    Directory.check_person Drafts.decide Drafts.transition Drafts.rowcount Drafts.get
    Drafts.to_draft find_first Drafts.update
version_then = refl

review-IsAccounted_example :
    IsAccounted one_hash one_mac parse_eve no_tokens dev review_log approval review_outside
      one_mac_written
      (lit "v")
      review_world
      (attempt one_hash one_mac parse_eve no_tokens dev review_log approval review_outside
        review_world).0
      (review one_hash one_mac parse_eve no_tokens dev review_log approval review_outside
        review_world)
review-IsAccounted_example =
    review-IsAccounted one_hash one_mac parse_eve no_tokens dev review_log approval review_outside
      one_mac_written (lit "v") review_world genesis version_then tt
      (no_files-IsLog one_hash one_mac review_log one_mac_written)
