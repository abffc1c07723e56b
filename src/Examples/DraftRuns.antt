-- ===== src/Examples/DraftRuns.antt =====
-- The review queue of mcp/src/compliance_mcp/drafts.py and the content checks on concrete data.
use regulatory_compliance_he.Prelude.{
  Text, lit, ◌≤◌, ◌≡◌, ◌⊎◌, ◌↔◌, refl, Option, none, some, true, false, List, [], ◌∷◌, any,
  find_first, strip, Result, ok, ◌==◌, if◌then◌else◌,
}
use regulatory_compliance_he.Models.{
  policy_mapping, control_finding_note, pending, approved, rejected, Draft, Release, User, person,
}
use regulatory_compliance_he.Drafts.{
  Row, DraftStore, Stamp, new_draft, to_draft, to_summary, create, decide, list,
}
use regulatory_compliance_he.Drafts
use regulatory_compliance_he.Drafts.Invariant.{IsWellFormed}
use regulatory_compliance_he.Drafts.Decisions.{find, settle, verdict, decide_lem}
use regulatory_compliance_he.Drafts.Queries.{get-create}
use regulatory_compliance_he.Drafts.History.{
  Write, decides, run, wins, wins-le-one, run-IsWellFormed,
}
use regulatory_compliance_he.Retention.History.{
  Change, writes, purges, run_changes, IsPurged, find-run_changes_decided,
}
use regulatory_compliance_he.DraftChecks.{check_draft, CheckError}
use regulatory_compliance_he.DraftChecks.Verbatim.{IsChecked, check_draft-eq-ok}
use regulatory_compliance_he.Service.Request.{Config, Today, draft_create}
use regulatory_compliance_he.Service.Tools.{run_body}
use regulatory_compliance_he.Service.DraftOnly.{Leaves, run_body-Leaves}
use regulatory_compliance_he.Prelude.Int.{pos}
use regulatory_compliance_he.Audit.Writer.{AuditLog, Source}
use regulatory_compliance_he.Audit.Log.{no_files}
use regulatory_compliance_he.Retention
use regulatory_compliance_he.Retention.{PurgeArgs, purge}
use regulatory_compliance_he.Retention.Deletion.{spared, purge-spares}

abbrev id_sha256 : Text → Text
id_sha256 t = t

abbrev d1 : Text
d1 = lit "D-1"

abbrev open_row : Row
open_row = record {
  draft_id = d1;
  kind = control_finding_note;
  title = lit "t";
  body = lit "b";
  requester = lit "ana";
  session_id = [];
  related_ids = [];
  created = lit "2026-01-01";
  status = pending;
  content_sha256 = lit "b";
  decision_by = none;
  decision_note = none;
  decision_at = none;
}

abbrev decided_row : Row
decided_row = record open_row {
  status = approved;
  decision_by = some (lit "ben");
  decision_note = some [];
  decision_at = some (lit "2026-01-02");
}

abbrev queue : DraftStore
queue = open_row ∷ []

abbrev decided_queue : DraftStore
decided_queue = decided_row ∷ []

queue-IsWellFormed : IsWellFormed queue
unfolding any
queue-IsWellFormed = record { unique = (refl, tt); consistent = ((refl, refl, refl), tt) }

decided_queue-IsWellFormed : IsWellFormed decided_queue
unfolding any
decided_queue-IsWellFormed = record {
  unique = (refl, tt);
  consistent = ((lit "ben", [], lit "2026-01-02", refl, refl, refl), tt);
}

decide_lem_example :
    ((decide d1 approved (lit "ben") [] (lit "now") queue).0
      ≡ verdict d1 approved (lit "ben") [] (lit "now") (find queue d1))
    × ((j : Text)
        → find (decide d1 approved (lit "ben") [] (lit "now") queue).1 j ≡ (
            if d1 == j
            then settle d1 approved (lit "ben") [] (lit "now") (find queue j)
            else find queue j))
decide_lem_example =
    decide_lem d1 approved (lit "ben") [] (lit "now") queue queue-IsWellFormed (λ p. cc p)

abbrev race : List Write
race =
    decides d1 approved (lit "ben") [] (lit "now")
    ∷ decides d1 rejected (lit "eve") [] (lit "later")
    ∷ []

wins-le-one_example : wins id_sha256 d1 queue race ≤ 1
wins-le-one_example = wins-le-one id_sha256 d1 queue race queue-IsWellFormed

run-IsWellFormed_example : IsWellFormed (run id_sha256 queue race)
run-IsWellFormed_example = run-IsWellFormed id_sha256 queue race queue-IsWellFormed

find_decided : find decided_queue d1 ≡ some decided_row
unfolding lit ◌==◌ find_first
find_decided = refl

-- A race of reviewers between two purges.
abbrev changes : List Change
changes =
    purges (lit "2019-01-01")
    ∷ writes (decides d1 approved (lit "ben") [] (lit "now"))
    ∷ writes (decides d1 rejected (lit "eve") [] (lit "later"))
    ∷ purges (lit "2020-01-01")
    ∷ []

find-run_changes_decided_example :
    (find (run_changes id_sha256 decided_queue changes) d1 ≡ some decided_row)
    ⊎ IsPurged decided_row changes
find-run_changes_decided_example =
    find-run_changes_decided id_sha256 decided_queue changes d1 decided_row
      decided_queue-IsWellFormed (λ p. cc p) find_decided

abbrev stamp2 : Stamp
stamp2 = record { day = lit "20260102"; hex = lit "0a1b2c3d4e"; now = lit "2026-01-02" }

abbrev new2 : Draft
new2 = new_draft id_sha256 stamp2 control_finding_note (lit "t") (lit "b") (lit "ana") [] []

created2 :
    (create id_sha256 stamp2 control_finding_note (lit "t") (lit "b") (lit "ana") [] [] queue).0
    ≡ ok new2
unfolding create strip lit Drafts.insert any ◌==◌ new_draft
created2 = refl

get-create_example :
    (new2.status ≡ pending)
    × (new2.decision ≡ none)
    × (new2.content_sha256 ≡ lit "b")
    × ((j : Text)
        → Drafts.get
            (create id_sha256 stamp2 control_finding_note
              (lit "t")
              (lit "b")
              (lit "ana")
              []
              []
              queue).1
            j
          ≡ (if new2.draft_id == j then some new2 else Drafts.get queue j))
get-create_example =
    get-create id_sha256 stamp2 control_finding_note (lit "t") (lit "b") (lit "ana") [] [] queue
      new2 created2

abbrev rule : Release
rule = record {
  release_id = lit "R-1";
  source = lit "fca";
  published = lit "2026-01-01";
  title = lit "Rule";
  url = lit "https://fca.example/r1";
  text = lit "Firms must keep records for five years.";
}

abbrev lookup : Text → Option Release
lookup rid = some rule

abbrev no_hash : Text → Text → Text → Result CheckError (Option Text)
no_hash control start end = ok none

abbrev table : Text
table = lit "| 1 | must | \"keep  records\" | s |\n"

check_draft-eq-ok_example :
    (check_draft (λ c. false) policy_mapping (lit "t") table (lit "R-1" ∷ []) lookup no_hash
      ≡ ok tt)
    ↔ IsChecked (λ c. false) policy_mapping (lit "t") table (lit "R-1" ∷ []) lookup no_hash
check_draft-eq-ok_example =
    check_draft-eq-ok (λ c. false) policy_mapping (lit "t") table (lit "R-1" ∷ []) lookup no_hash

abbrev toy_config : Config
toy_config = record {
  systems = record { policies = []; controls = []; tests = []; tickets = [] };
  releases = (lit "R-1", rule) ∷ [];
  attestations = [];
  allow_clock_override = false;
}

abbrev ana2 : User
ana2 = record {
  id = lit "7";
  upn = lit "ana@bank.example";
  name = lit "Ana";
  groups = [];
  active = true;
  kind = person;
}

abbrev today2 : Today
today2 = record {
  text = lit "2026-01-02";
  date = record { year = 2026; month = 1; day = 2 };
  stamp = stamp2;
}

run_body-Leaves_example :
    Leaves id_sha256
      (λ m. lit "{}")
      (λ t. lit "{}")
      (λ c. lit "{}")
      (λ c. false)
      toy_config
      (draft_create policy_mapping (lit "t") table (lit "R-1" ∷ []))
      ana2
      queue
      (run_body id_sha256
        (λ m. lit "{}")
        (λ t. lit "{}")
        (λ c. lit "{}")
        (λ c. false)
        toy_config
        (draft_create policy_mapping (lit "t") table (lit "R-1" ∷ []))
        ana2
        today2
        queue).1
run_body-Leaves_example =
    run_body-Leaves id_sha256 (λ m. lit "{}") (λ t. lit "{}") (λ c. lit "{}") (λ c. false)
      toy_config (draft_create policy_mapping (lit "t") table (lit "R-1" ∷ [])) ana2 today2 queue

abbrev purge_log : AuditLog
purge_log = record {
  stem = lit "audit";
  suffix = lit ".jsonl";
  agent_id = lit "compliance-admin";
  hmac_key = [];
  rotate_bytes = 50_000_000;
  anchor_every = 100;
  forwarding = false;
}

abbrev purge_source : Source
purge_source = record {
  moment = record { uuid = lit "u1"; ts = lit "2033-01-02" };
  stamp = lit "20330102";
  marker = record { uuid = lit "u2"; ts = lit "2033-01-02" };
}

abbrev seven_years : PurgeArgs
seven_years = record { days = pos 2555; cutoff = lit "2026-01-04"; apply = true }

abbrev kept_world : Retention.World
kept_world = record { disk = no_files; drafts = decided_queue }

purge-spares_example :
    IsWellFormed
      (purge id_sha256
        (λ k h. h)
        purge_log
        purge_source
        (λ f. true)
        seven_years
        kept_world).1.drafts
    × ((j : Text)
        → find
            (purge id_sha256
              (λ k h. h)
              purge_log
              purge_source
              (λ f. true)
              seven_years
              kept_world).1.drafts
            j
          ≡ (if true
              then spared (lit "2026-01-04") (find decided_queue j)
              else find decided_queue j))
purge-spares_example =
    purge-spares id_sha256 (λ k h. h) purge_log purge_source (λ f. true) seven_years kept_world
      decided_queue-IsWellFormed
