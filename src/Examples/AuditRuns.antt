-- ===== src/Examples/AuditRuns.antt =====
-- The audit log of mcp/src/compliance_mcp/audit.py on concrete data, and a call of the service that
-- is recorded in it. The hash and the MAC are stand-ins.
use regulatory_compliance_he.Prelude.{
  Text, lit, ◌≡◌, ◌↔◌, ◌⊎◌, refl, Option, none, some, true, false, List, [], ◌∷◌, ◌++◌, Result, ok,
  is_empty, length, take,
}
use regulatory_compliance_he.Json.{str}
use regulatory_compliance_he.Models.{User, person, header, ToolResult, policy_list_result}
use regulatory_compliance_he.Audit.Record.{Entry, genesis}
use regulatory_compliance_he.Audit.Writer.{AuditLog, Disk, Source}
use regulatory_compliance_he.Audit.Append.{head}
use regulatory_compliance_he.Audit.Verifier.{VerifyResult, verified, verify}
use regulatory_compliance_he.Audit.Chain.{IsChain, IsChain-unkeyed}
use regulatory_compliance_he.Audit.Walks.{records_of, IsReadable, advance}
use regulatory_compliance_he.Audit.Acceptance.{lines_of, start, verify_complete, verify-eq-ok}
use regulatory_compliance_he.Audit.Tamper.{SameRecords, Collision, verify-SameRecords}
use regulatory_compliance_he.Audit.Preservation.{lines, IsLog}
use regulatory_compliance_he.Audit.Log.{
  no_files, no_files-IsLog, run, run-IsLog, HasLaterStamps, verify-run,
}
use regulatory_compliance_he.Directory.{UsersFile, Directory}
use regulatory_compliance_he.Directory
use regulatory_compliance_he.RateLimit
use regulatory_compliance_he.Drafts.{DraftStore}
use regulatory_compliance_he.Service.Failure.{Failure}
use regulatory_compliance_he.Service.Audited.{World, Outside, Call, audited}
use regulatory_compliance_he.Service.OneRecord.{IsRecorded, audited-IsRecorded}
use regulatory_compliance_he.Service.Access.{
  IsGuarded, audited-IsGuarded, IsEarned, audited-IsEarned,
}

abbrev pub toy_sha256 : Text → Text
toy_sha256 t = lit "h" ++ take 8 t

abbrev pub toy_hmac : Text → Text → Text
toy_hmac key h = b'm' ∷ h

abbrev pub toy_mac_written : (k h : Text) → is_empty (toy_hmac k h) ≡ false
toy_mac_written k h = refl

abbrev pub toy_log : AuditLog
toy_log = record {
  stem = lit "audit";
  suffix = lit ".jsonl";
  agent_id = lit "compliance";
  hmac_key = lit "k";
  rotate_bytes = 100;
  anchor_every = 100;
  forwarding = true;
}

abbrev pub toy_source : Source
toy_source = record {
  moment = record { uuid = lit "u1"; ts = lit "2026-01-01T00:00:00Z" };
  stamp = lit "20260101T000000.000000001Z";
  marker = record { uuid = lit "u2"; ts = lit "2026-01-01T00:00:00Z" };
}

abbrev toy_entry : Entry
toy_entry = record {
  requester = lit "ana@bank.example";
  tool = lit "policy_list";
  args = (lit "api_key", str (lit "x")) ∷ [];
  outcome = lit "ok";
  result_summary = lit "2 current policies";
  session_id = lit "s";
  directory_version = lit "v";
}

abbrev written_once : Disk
written_once =
    run toy_sha256 toy_hmac toy_log toy_mac_written ((toy_source, toy_entry) ∷ []) no_files

abbrev one_call :
    HasLaterStamps toy_sha256 toy_hmac toy_log toy_mac_written
      ((toy_source, toy_entry) ∷ [])
      no_files
one_call = (tt, tt)

verify-run_example :
    (h : Text) × (head written_once.active ≡ ok (str h))
    × (verify toy_sha256 toy_hmac toy_log.hmac_key toy_log written_once
        ≡ ok (
            verified (
              advance
                (start toy_sha256 toy_hmac toy_log.hmac_key toy_log written_once)
                h
                (length (records_of (lines toy_log written_once))))))
verify-run_example =
    verify-run toy_sha256 toy_hmac toy_log toy_mac_written ((toy_source, toy_entry) ∷ []) one_call

abbrev written_log : (h : Text) × IsLog toy_sha256 toy_hmac toy_log written_once h
written_log =
    run-IsLog toy_sha256 toy_hmac toy_log toy_mac_written ((toy_source, toy_entry) ∷ []) no_files
      genesis one_call (no_files-IsLog toy_sha256 toy_hmac toy_log toy_mac_written)

written_accepted :
    verify toy_sha256 toy_hmac toy_log.hmac_key toy_log written_once
    ≡ ok (
        verified (
          advance (start toy_sha256 toy_hmac toy_log.hmac_key toy_log written_once) written_log.0 (
            length
              (records_of (lines_of toy_sha256 toy_hmac toy_log.hmac_key toy_log written_once)))))
unfolding lines
written_accepted =
    verify_complete toy_sha256 toy_hmac toy_log.hmac_key toy_log written_once written_log.0
      written_log.1.readable written_log.1.chain

abbrev verdict : VerifyResult
verdict = verified (
    advance (start toy_sha256 toy_hmac toy_log.hmac_key toy_log written_once) written_log.0
      (length (records_of (lines toy_log written_once))))

verify-eq-ok_example :
    ((verify toy_sha256 toy_hmac toy_log.hmac_key toy_log written_once ≡ ok verdict)
      × (verdict.ok_ ≡ true))
    ↔ (IsReadable (lines_of toy_sha256 toy_hmac toy_log.hmac_key toy_log written_once)
        × IsChain toy_sha256 toy_hmac toy_log.hmac_key genesis
            (records_of (lines_of toy_sha256 toy_hmac toy_log.hmac_key toy_log written_once))
            verdict.head
        × (verdict
            ≡ verified (
                advance
                  (start toy_sha256 toy_hmac toy_log.hmac_key toy_log written_once)
                  verdict.head
                  (length (
                    records_of
                      (lines_of toy_sha256 toy_hmac toy_log.hmac_key toy_log written_once))))))
verify-eq-ok_example =
    verify-eq-ok toy_sha256 toy_hmac toy_log.hmac_key toy_log written_once verdict

-- The log as one sees it who has no key.
bare_accepted : verify toy_sha256 toy_hmac [] toy_log written_once ≡ ok verdict
unfolding lines verified
bare_accepted =
    verify_complete toy_sha256 toy_hmac [] toy_log written_once written_log.0 written_log.1.readable
      (IsChain-unkeyed toy_sha256 toy_hmac toy_hmac toy_log.hmac_key genesis
        (records_of (lines toy_log written_once)) written_log.0 written_log.1.chain)

verify-SameRecords_example :
    SameRecords
      (records_of (lines_of toy_sha256 toy_hmac toy_log.hmac_key toy_log written_once))
      (records_of (lines_of toy_sha256 toy_hmac [] toy_log written_once))
    ⊎ Collision toy_sha256
unfolding verified lines
verify-SameRecords_example =
    verify-SameRecords toy_sha256 toy_hmac toy_hmac toy_log.hmac_key [] toy_log toy_log written_once
      written_once verdict verdict written_accepted bare_accepted refl refl refl refl

-- A user who may call, and the directory that lists her.
abbrev pub ana : User
ana = record {
  id = lit "7";
  upn = lit "ana@bank.example";
  name = lit "Ana";
  groups = lit "compliance-analysts" ∷ lit "compliance-approvers" ∷ [];
  active = true;
  kind = person;
}

abbrev pub toy_parse : Text → Option (List User)
toy_parse raw = some (ana ∷ [])

abbrev pub toy_file : UsersFile
toy_file = record { mtime = 5; raw = lit "[ana]" }

abbrev pub toy_directory : Directory
toy_directory = record {
  ttl = 60;
  users = (lit "7", ana) ∷ (lit "ana@bank.example", ana) ∷ [];
  version = lit "v";
  mtime = 5;
  checked_at = 100;
}

abbrev toy_world : World
toy_world = record {
  disk = no_files;
  directory = toy_directory;
  limiter = RateLimit.new 30 none;
  drafts = [];
}

abbrev toy_outside : Outside
toy_outside = record {
  file = toy_file;
  version_at = 110;
  file_then = toy_file;
  resolve_at = 111;
  tick = 5;
  source = toy_source;
  retry = toy_source;
}

abbrev toy_call : Call
toy_call = record {
  caller = record { requester = lit "ANA@bank.example"; source = header; session_id = lit "s" };
  tool = lit "policy_list";
  group = some (lit "compliance-analysts");
  persisted = [];
}

abbrev toy_body : User → DraftStore → Result Failure ToolResult × DraftStore
toy_body user drafts = (ok (policy_list_result (lit "0 current policies") []), drafts)

audited-IsRecorded_example :
    IsRecorded toy_sha256 toy_hmac toy_parse toy_log toy_call toy_body toy_outside toy_mac_written
      (lit "v")
      toy_world
      (audited toy_sha256 toy_hmac toy_parse toy_log toy_call toy_body toy_outside toy_world)
unfolding Directory.read_version Directory.load
audited-IsRecorded_example =
    audited-IsRecorded toy_sha256 toy_hmac toy_parse toy_log toy_call toy_body toy_outside
      toy_mac_written (lit "v") toy_world genesis refl tt
      (no_files-IsLog toy_sha256 toy_hmac toy_log toy_mac_written)

audited-IsGuarded_example :
    IsGuarded toy_sha256 toy_hmac toy_parse toy_log toy_call toy_body toy_outside toy_world
      (audited toy_sha256 toy_hmac toy_parse toy_log toy_call toy_body toy_outside toy_world)
audited-IsGuarded_example =
    audited-IsGuarded toy_sha256 toy_hmac toy_parse toy_log toy_call toy_body toy_outside toy_world

audited-IsEarned_example :
    IsEarned toy_sha256 toy_hmac toy_parse toy_log toy_call toy_body toy_outside toy_world
      (audited toy_sha256 toy_hmac toy_parse toy_log toy_call toy_body toy_outside toy_world).0
audited-IsEarned_example =
    audited-IsEarned toy_sha256 toy_hmac toy_parse toy_log toy_call toy_body toy_outside toy_world
