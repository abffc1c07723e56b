-- ===== src/Service/Gaps.antt =====
-- When the manifest of mcp/src/compliance_mcp/service.py shows no gap, and what its hash covers.
use regulatory_compliance_he.Prelude.{
  Text, ℕ, ◌≤◌, ◌≡◌, ◌↔◌, refl, ap, inl, inr, Option, none, some, true, not, List, [], ◌∷◌, ◌++◌,
  arith, map, keep, all, length, ltb, Bool-cases, Result, ok, err, Result-cases, ◌>>=◌, ◌∙◌,
}
use regulatory_compliance_he.Prelude.Map.{get}
use regulatory_compliance_he.Models.{
  Control, Frequency, monthly, quarterly, annual, unset, TestResult, Ticket, EvidenceManifest,
}
use regulatory_compliance_he.Store.Controls.{results}
use regulatory_compliance_he.Service.Failure.{Failure}
use regulatory_compliance_he.Service.Evidence.{
  months_inclusive, tests_needed, is_pass, failed_test, count_gap, cadence_gaps, detect_gaps,
  Systems, manifest_for, compute_manifest,
}

failures-nil :
    (rows : List TestResult)
    → (map failed_test (keep (λ r. not (is_pass r.result)) rows) ≡ [])
      ↔ (all (λ r. is_pass r.result) rows ≡ true)
unfolding keep all
failures-nil [] = (λ e. refl, λ h. refl)
failures-nil (r ∷ rows) = elim (Bool-cases (is_pass r.result)) [
  | inl e ↦ rw e (failures-nil rows)
  | inr e ↦ rw e (λ x. absurd (cc x), λ h. absurd (cc h))
]

-- The cadence of a control asks for no more tests than were found; a control without one asks for
-- none.
abbrev pub MeetsCadence : Frequency → ℕ → Text → Text → Type 0
MeetsCadence unset found start end = Unit
MeetsCadence frequency found start end =
    (months : ℕ) × (months_inclusive start end ≡ ok months)
    × (tests_needed frequency months ≤ found)

count_gap-nil :
    (frequency : Frequency) (found needed : ℕ)
    → (count_gap frequency found needed ≡ []) ↔ (needed ≤ found)
unfolding count_gap
count_gap-nil frequency found needed = elim (Bool-cases (ltb found needed)) [
  | inl e ↦ rw e (λ x. absurd (cc x), λ h. absurd (ground (arith, e, h)))
  | inr e ↦ rw e (λ x. ground (arith, e), λ h. refl)
]

counted_gaps :
    (frequency : Frequency) (found : ℕ) (start end : Text)
    → ((months_inclusive start end >>= λ months.
          ok (count_gap frequency found (tests_needed frequency months)))
        ≡ ok [])
      ↔ ((months : ℕ) × (months_inclusive start end ≡ ok months)
          × (tests_needed frequency months ≤ found))
counted_gaps frequency found start end = elim (Result-cases (months_inclusive start end)) [
  | inl (months, e) ↦
      let gap = count_gap-nil frequency found (tests_needed frequency months) in
      (λ x. (months, e, gap.0 (ground (arith, e, x))), λ h. ground (arith, e, h, gap))
  | inr (f, e) ↦ (λ x. absurd (ground (arith, e, x)), λ h. absurd (ground (arith, e, h)))
]

cadence_gaps-nil :
    (frequency : Frequency) (found : ℕ) (start end : Text)
    → (cadence_gaps frequency found start end ≡ ok []) ↔ MeetsCadence frequency found start end
unfolding cadence_gaps
cadence_gaps-nil monthly found start end = counted_gaps monthly found start end
cadence_gaps-nil quarterly found start end = counted_gaps quarterly found start end
cadence_gaps-nil annual found start end = counted_gaps annual found start end
cadence_gaps-nil unset found start end = (λ e. tt, λ h. refl)

append-nil_iff : (xs ys : List Text) → (xs ++ ys ≡ []) ↔ ((xs ≡ []) × (ys ≡ []))
append-nil_iff [] ys = (λ e. (refl, e), λ h. h.1)
append-nil_iff (x ∷ xs) ys = (λ e. absurd (cc e), λ h. absurd (cc (h.0)))

-- No gap is shown exactly if every test passed and there are at least as many as the cadence of the
-- control asks for in the months of the period; on an impossible date there is no answer unless the
-- control has no cadence.
pub detect_gaps-nil :
    (frequency : Frequency) (rows : List TestResult) (start end : Text)
    → (detect_gaps frequency rows start end ≡ ok [])
      ↔ (MeetsCadence frequency (length rows) start end × (all (λ r. is_pass r.result) rows ≡ true))
unfolding detect_gaps
detect_gaps-nil frequency rows start end =
    let cadence = cadence_gaps-nil frequency (length rows) start end in
    let failures = failures-nil rows in
    elim (Result-cases (cadence_gaps frequency (length rows) start end)) [
      | inl (gaps, e) ↦
          let split =
            append-nil_iff gaps (map failed_test (keep (λ r. not (is_pass r.result)) rows)) in
          (
            λ x.
                let (none_missing, none_failed) = split.0 (ground (arith, e, x)) in
                (cadence.0 (rw e (ap ok none_missing)), failures.0 none_failed),
            λ (h, p). rw e (ap ok (split.1 (cc (e, cadence.1 h), failures.1 p))),
          )
      | inr (f, e) ↦ (λ x. absurd (ground (arith, e, x)), λ (h, p). absurd (cc (e, cadence.1 h)))
    ]

gaps-nil :
    (frequency : Frequency) (rows : List TestResult) (start end : Text) (gaps : List Text)
    → detect_gaps frequency rows start end ≡ ok gaps
    → (gaps ≡ [])
      ↔ (MeetsCadence frequency (length rows) start end × (all (λ r. is_pass r.result) rows ≡ true))
gaps-nil frequency rows start end gaps g =
    let shown = detect_gaps-nil frequency rows start end in
    (λ e. shown.0 (g ∙ ap ok e), λ h. ground (arith, g, shown.1 h))

module _ (sha256 : Text → Text) (manifest_json : EvidenceManifest → Text)
    (ticket_json : Ticket → Text) where
  -- A manifest for a control that is known, sealed by the hash of all its other fields.
  abbrev pub IsSealed :
      Systems → Text → Text → Text → Result Failure (Option EvidenceManifest) → Type 0
  IsSealed s control_id start end (ok (some m)) =
      (get s.controls control_id ≡ some m.control)
      × (m.period_start ≡ start)
      × (m.period_end ≡ end)
      × (m.test_results ≡ results s.tests control_id (some start) (some end))
      × ((m.gaps ≡ []) ↔ (
          MeetsCadence m.control.test_frequency (length m.test_results) start end
          × (all (λ r. is_pass r.result) m.test_results ≡ true)))
      × (m.manifest_sha256 ≡ sha256 (manifest_json (record m { manifest_sha256 = [] })))
  IsSealed s control_id start end (ok none) = get s.controls control_id ≡ none
  IsSealed s control_id start end (err f) = (c : Control) × (get s.controls control_id ≡ some c)

  -- Every manifest is of a known control and the period asked for, holds the control's tests in the
  -- period, shows no gap exactly if these all passed and are as many as the cadence asks for, and
  -- carries the hash of all its other fields; no manifest is given for an unknown control, and the
  -- computation fails at most for a known one.
  pub compute_manifest-IsSealed :
      (s : Systems) (control_id start end : Text)
      → IsSealed s control_id start end
          (compute_manifest sha256 manifest_json ticket_json s control_id start end)
  unfolding compute_manifest manifest_for
  compute_manifest-IsSealed s control_id start end = go (get s.controls control_id) refl
    where
      go :
          (o : Option Control)
          → get s.controls control_id ≡ o
          → IsSealed s control_id start end (elim o [
            | none ↦ ok none
            | some control ↦
                manifest_for sha256 manifest_json ticket_json s control control_id start end
                >>= λ m. ok (some m)
          ])
      go none e = e
      go (some c) e =
          elim (Result-cases (
            detect_gaps c.test_frequency (results s.tests control_id (some start) (some end)) start
              end)) [
                | inl (gaps, g) ↦ rw g (
                  e,
                  refl,
                  refl,
                  refl,
                  gaps-nil c.test_frequency (results s.tests control_id (some start) (some end))
                      start end gaps g,
                  refl,
                )
                | inr (f, g) ↦ rw g (c, e)
              ]
