-- ===== src/Service/Evidence.antt =====
-- The evidence manifest of mcp/src/compliance_mcp/service.py: `_validate_range`, `compute_manifest`
-- and the gap detection. SHA-256 and the JSON that pydantic and `json.dumps` make are parameters.
use regulatory_compliance_he.Prelude.{
  Text, lit, decimal, ℕ, ◌+◌, ◌*◌, ◌-◌, ◌/◌, max, Option, none, some, Bool, true, false, not, ◌||◌,
  List, [], ◌∷◌, ◌++◌, map, keep, length, ltb, nat_eq, text_lt, Result, ok, err, if◌then◌else◌,
  ◌>>=◌, ◌>>◌,
}
use mathlib.Core.List.{reverse}
use regulatory_compliance_he.Prelude.Map.{Dict, get}
use regulatory_compliance_he.Models.{
  Policy, PolicyVersionRef, Control, Frequency, monthly, quarterly, annual, unset, frequency_value,
  TestResult, TestOutcome, pass, outcome_value, Ticket, EvidenceManifest,
}
use regulatory_compliance_he.Store.Dates.{parse_iso_date}
use regulatory_compliance_he.Store.Policies.{in_force, versions}
use regulatory_compliance_he.Store.Controls.{results}
use regulatory_compliance_he.Store.Tickets
use regulatory_compliance_he.Service.Failure.{Failure, invalid, other}

-- `if value:`
abbrev pub present : Option Text → Option Text
present none = none
present (some []) = none
present (some (c ∷ s)) = some (c ∷ s)

check_real : Text → Text → Result Failure (Unit {0})
check_real label value = elim (parse_iso_date value) [
  | none ↦ err (invalid (label ++ (lit " is not a real date: " ++ value)))
  | some d ↦ ok tt
]

check_date : Text → Option Text → Result Failure (Unit {0})
unfolding check_real
check_date label none = ok tt
check_date label (some value) = check_real label value

check_order : Option Text → Option Text → Result Failure (Unit {0})
check_order (some start) (some end) =
    if text_lt end start
    then err (invalid (lit "start " ++ (start ++ (lit " is after end " ++ end))))
    else ok tt
check_order _ _ = ok tt

-- `_validate_range`
unfoldable pub validate_range : Option Text → Option Text → Result Failure (Unit {0})
unfolding check_date check_order
validate_range start end =
    check_date (lit "start") (present start)
    >> (check_date (lit "end") (present end) >> check_order (present start) (present end))

-- `_months_inclusive`, which raises on an impossible date.
unfoldable pub months_inclusive : Text → Text → Result Failure ℕ
months_inclusive start end = elim (parse_iso_date start) [
  | none ↦ err other
  | some s ↦ elim (parse_iso_date end) [
    | none ↦ err other
    | some e ↦ ok (max 1 (e.year * 12 + e.month + 1 - (s.year * 12 + s.month)))
  ]
]

-- `math.ceil(months * per_month)`, with the rates 1, 1/3 and 1/12 as fractions.
unfoldable pub tests_needed : Frequency → ℕ → ℕ
tests_needed monthly months = months
tests_needed quarterly months = (months + 2) / 3
tests_needed annual months = (months + 11) / 12
tests_needed unset months = 0

abbrev pub is_pass : TestOutcome → Bool
is_pass pass = true
is_pass _ = false

strip_marks : Text → Text
strip_marks [] = []
strip_marks (c ∷ s) = if nat_eq c b':' || nat_eq c b' ' then strip_marks s else c ∷ s

-- `text.rstrip(": ")`
rstrip_marks : Text → Text
rstrip_marks s = reverse (strip_marks (reverse s))

pub failed_test : TestResult → Text
failed_test r = rstrip_marks (
    lit "test "
    ++ (r.test_id
        ++ (lit " on "
            ++ (r.tested_on
                ++ (lit " result=" ++ (outcome_value r.result ++ (lit ": " ++ r.notes)))))))

pub too_few : ℕ → Frequency → ℕ → Text
too_few needed frequency found =
    lit "expected at least "
    ++ (decimal needed
        ++ (lit " "
            ++ (frequency_value frequency ++ (lit " test(s) in period, found " ++ decimal found))))

unfoldable pub count_gap : Frequency → ℕ → ℕ → List Text
count_gap frequency found needed =
    if ltb found needed then too_few needed frequency found ∷ [] else []

unfoldable pub cadence_gaps : Frequency → ℕ → Text → Text → Result Failure (List Text)
cadence_gaps unset found start end = ok []
cadence_gaps frequency found start end = months_inclusive start end >>= λ months.
    ok (count_gap frequency found (tests_needed frequency months))

-- `_detect_gaps`
unfoldable pub detect_gaps : Frequency → List TestResult → Text → Text → Result Failure (List Text)
detect_gaps frequency results start end =
    cadence_gaps frequency (length results) start end >>= λ gaps.
    ok (gaps ++ map failed_test (keep (λ r. not (is_pass r.result)) results))

abbrev pub version_ref : Policy → PolicyVersionRef
version_ref v = record {
  policy_id = v.policy_id;
  version = v.version;
  effective_date = v.effective_date;
  title = v.title;
  source = v.source;
  sha256 = v.sha256;
}

unfoldable pub policy_versions : List Policy → List Text → Text → List PolicyVersionRef
policy_versions docs [] end = []
policy_versions docs (pid ∷ pids) end =
    map version_ref (keep (in_force end) (versions docs pid)) ++ policy_versions docs pids end

-- The systems of record, as the service has loaded them.
pub record Systems : Type 0 where
  pub policies : List Policy
  pub controls : Dict Control
  pub tests : List TestResult
  pub tickets : List Ticket

module _ (sha256 : Text → Text) (manifest_json : EvidenceManifest → Text)
    (ticket_json : Ticket → Text) where
  unfoldable pub manifest_for :
      Systems → Control → Text → Text → Text → Result Failure EvidenceManifest
  manifest_for s control control_id start end =
      let rows = results s.tests control_id (some start) (some end) in
      detect_gaps control.test_frequency rows start end >>= λ gaps.
      (let unsigned : EvidenceManifest = record {
        control = control;
        period_start = start;
        period_end = end;
        policy_versions = policy_versions s.policies control.policies end;
        test_results = rows;
        change_tickets = Tickets.search ticket_json s.tickets [] control_id (some start) (some end);
        gaps = gaps;
        manifest_sha256 = [];
      } in
        ok (record unsigned { manifest_sha256 = sha256 (manifest_json unsigned) }))

  -- `compute_manifest`
  unfoldable pub compute_manifest :
      Systems → Text → Text → Text → Result Failure (Option EvidenceManifest)
  compute_manifest s control_id start end = elim (get s.controls control_id) [
    | none ↦ ok none
    | some control ↦ manifest_for s control control_id start end >>= λ m. ok (some m)
  ]
