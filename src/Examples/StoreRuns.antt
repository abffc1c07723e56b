-- ===== src/Examples/StoreRuns.antt =====
-- The adapters of mcp/src/compliance_mcp/store.py on concrete data.
use regulatory_compliance_he.Prelude.{
  lit, ◌≡◌, ◌↔◌, refl, some, true, List, [], ◌∷◌, ◌==◌, ok, map, keep, all, find_first,
}
use mathlib.Core.List.{Perm}
use regulatory_compliance_he.Prelude.Int.{pos}
use regulatory_compliance_he.Prelude.Sorting.{IsSorted, by_key}
use regulatory_compliance_he.Prelude.Latest.{IsGreatest}
use regulatory_compliance_he.Models.{
  PolicyStatus, Policy, Attestation, AttestationDue, open_, complete,
}
use regulatory_compliance_he.Store.Dates.{
  Date, parse_iso_date, is_digit, number_of, is_real, days_in_month, ordinal, in_range,
}
use regulatory_compliance_he.Store.Dates.Range.{in_range-ordinal}
use regulatory_compliance_he.Store.Policies.{date_order, current, version_as_of}
use regulatory_compliance_he.Store.Policies.Versions.{
  candidates, approved_versions, version_as_of_lem,
}
use regulatory_compliance_he.Store.Policies.Current.{current_lem}
use regulatory_compliance_he.Store.Attestations.{due}
use regulatory_compliance_he.Store.Attestations.Due.{is_due, is_real_due, due-rows}
use regulatory_compliance_he.Prelude.{Text, ◌++◌, ℕ, ◌≤◌, Option}
use regulatory_compliance_he.Models.{
  Control, TestResult, TestOutcome, Ticket, EvidenceManifest, quarterly,
}
use regulatory_compliance_he.Service.Evidence.{Systems, compute_manifest}
use regulatory_compliance_he.Service.Gaps.{IsSealed, compute_manifest-IsSealed}
use regulatory_compliance_he.Prelude.Map.{get}
use regulatory_compliance_he.Models.{Release}
use regulatory_compliance_he.Store.Feed
use regulatory_compliance_he.Feed.{Cache, merge_into_cache}
use regulatory_compliance_he.Feed.Merge.{or_else, merge_into_cache_lem}

abbrev v1 : Policy
v1 = record {
  policy_id = lit "P-1";
  version = lit "1";
  effective_date = lit "2025-01-01";
  status = PolicyStatus.approved;
  title = lit "Access";
  owner = [];
  regulations = [];
  controls = [];
  source = lit "policies/p1.md";
  sha256 = [];
  sections = [];
}

abbrev v2 : Policy
v2 = record v1 { version = lit "2"; effective_date = lit "2026-01-01" }

version_as_of_lem_example :
    IsGreatest date_order
      (candidates (v1 ∷ v2 ∷ []) (lit "P-1") (lit "2025-06-30"))
      (version_as_of (v1 ∷ v2 ∷ []) (lit "P-1") (lit "2025-06-30"))
version_as_of_lem_example = version_as_of_lem (v1 ∷ v2 ∷ []) (lit "P-1") (lit "2025-06-30")

current_lem_example :
    IsSorted (by_key (λ d. d.policy_id)) (current (v1 ∷ v2 ∷ []))
    × IsGreatest date_order
        (approved_versions (v1 ∷ v2 ∷ []) (lit "P-1"))
        (find_first (λ d. d.policy_id == lit "P-1") (current (v1 ∷ v2 ∷ [])))
current_lem_example = current_lem (v1 ∷ v2 ∷ []) (lit "P-1")

abbrev leap : Date
leap = record { year = 2024; month = 2; day = 29 }

abbrev march : Date
march = record { year = 2024; month = 3; day = 1 }

leap_parsed : parse_iso_date (lit "2024-02-29") ≡ some leap
unfolding parse_iso_date lit is_digit number_of is_real days_in_month
leap_parsed = refl

march_parsed : parse_iso_date (lit "2024-03-01") ≡ some march
unfolding parse_iso_date lit is_digit number_of is_real days_in_month
march_parsed = refl

in_range-ordinal_example :
    (in_range (lit "2024-02-29") (some (lit "2024-02-29")) (some (lit "2024-03-01")) ≡ true)
    ↔ ((ordinal leap ≤ ordinal leap) × (ordinal leap ≤ ordinal march))
in_range-ordinal_example =
    in_range-ordinal (lit "2024-02-29") (lit "2024-02-29") (lit "2024-03-01") leap leap march
      leap_parsed leap_parsed march_parsed

abbrev review : Attestation
review = record {
  attestation_id = lit "A-1";
  type = lit "policy";
  owner = lit "ana";
  manager = lit "ben";
  due = lit "2024-02-29";
  status = open_;
}

abbrev reviews : List Attestation
reviews = review ∷ record review { status = complete; due = lit "2024-02-30" } ∷ []

reviews_real : all is_real_due reviews ≡ true
unfolding all parse_iso_date lit is_digit number_of is_real days_in_month
reviews_real = refl

due-rows_example :
    (rows : List AttestationDue) × (due reviews (pos 14) march ≡ ok rows)
    × IsSorted (by_key (λ r. r.attestation.due)) rows
    × Perm (map (λ r. r.attestation) rows) (keep (is_due 14 march) reviews)
due-rows_example = due-rows 14 march reviews reviews_real

abbrev r1 : Release
r1 = record {
  release_id = lit "FCA-1";
  source = lit "FCA";
  published = lit "2026-01-01";
  title = lit "Rule";
  url = [];
  text = lit "Firms must keep records.";
}

abbrev r1_edited : Release
r1_edited = record r1 { text = lit "Firms may keep records." }

abbrev r2 : Release
r2 = record r1 { release_id = lit "FCA-2" }

abbrev first_cache : Option Cache
first_cache =
    some (record { source = lit "FCA"; fetched = lit "2026-08-11T09:00:00Z"; releases = r1 ∷ [] })

abbrev merged : Cache
merged =
    (merge_into_cache first_cache (lit "FCA") (lit "2026-08-12T09:00:00Z") (r1_edited ∷ r2 ∷ [])).0

abbrev merged_again : Cache × (ℕ × ℕ)
merged_again =
    merge_into_cache (some merged) (lit "FCA") (lit "2026-08-13T09:00:00Z") (r1_edited ∷ r2 ∷ [])

merge_into_cache_lem_example :
    (get (Feed.index_from [] merged.releases) (lit "FCA-1")
      ≡ or_else
          (get (Feed.index_from [] (r1 ∷ [])) (lit "FCA-1"))
          (get (Feed.index_from [] (r1_edited ∷ r2 ∷ [])) (lit "FCA-1")))
    × (merged_again.0 ≡ record merged { fetched = lit "2026-08-13T09:00:00Z" })
    × (merged_again.1.0 ≡ 0)
merge_into_cache_lem_example =
    merge_into_cache_lem first_cache (lit "FCA") (lit "2026-08-12T09:00:00Z")
      (lit "2026-08-13T09:00:00Z") (r1_edited ∷ r2 ∷ []) (lit "FCA-1")

abbrev passed : TestResult
passed = record {
  test_id = lit "T-1";
  control_id = lit "C-1";
  tested_on = lit "2026-02-10";
  tester = lit "ana";
  result = TestOutcome.pass;
  notes = [];
}

abbrev c1 : Control
c1 = record {
  control_id = lit "C-1";
  name = lit "Access review";
  description = [];
  owner = [];
  test_frequency = quarterly;
  policies = lit "P-1" ∷ [];
  regulations = [];
  evidence = [];
}

abbrev systems : Systems
systems = record {
  policies = v1 ∷ v2 ∷ [];
  controls = (lit "C-1", c1) ∷ [];
  tests = passed ∷ [];
  tickets = [];
}

abbrev plain_sha256 : Text → Text
plain_sha256 t = t

abbrev plain_manifest : EvidenceManifest → Text
plain_manifest m = m.control.control_id ++ (m.period_start ++ m.period_end)

abbrev plain_ticket : Ticket → Text
plain_ticket t = t.ticket_id

compute_manifest-IsSealed_example :
    IsSealed plain_sha256 plain_manifest plain_ticket systems
      (lit "C-1")
      (lit "2026-01-01")
      (lit "2026-03-31")
      (compute_manifest plain_sha256 plain_manifest plain_ticket systems
        (lit "C-1")
        (lit "2026-01-01")
        (lit "2026-03-31"))
compute_manifest-IsSealed_example =
    compute_manifest-IsSealed plain_sha256 plain_manifest plain_ticket systems (lit "C-1")
      (lit "2026-01-01") (lit "2026-03-31")
