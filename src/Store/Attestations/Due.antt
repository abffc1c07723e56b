-- ===== src/Store/Attestations/Due.antt =====
-- Which attestations `due` of mcp/src/compliance_mcp/store.py lists.
use mathlib.Core.List.{Perm}
use mathlib.Core.List.Perm
use regulatory_compliance_he.Prelude.{
  ℕ, ◌+◌, ◌≡◌, refl, subst, inl, inr, Option, none, some, Bool, true, false, not, ◌&&◌, ◌||◌, all,
  List, [], ◌∷◌, arith, map, keep, leb, sort_by, Bool-cases, Option-cases, ok, Result-cases,
}
use regulatory_compliance_he.Prelude.Int.{pos, sub_ℕ-leb}
use regulatory_compliance_he.Prelude.Sorting.{IsSorted, by_key, sort_by-Perm, sort_by_key-IsSorted}
use regulatory_compliance_he.Models.{Attestation, AttestationDue}
use regulatory_compliance_he.Store.Dates.{Date, parse_iso_date, ordinal}
use regulatory_compliance_he.Store.Attestations.{is_complete, days_until, collect, due_order, due}

-- The due date is at most `n` days after `today`.
abbrev pub is_near : ℕ → Date → Option Date → Bool
is_near n today none = false
is_near n today (some d) = leb (ordinal d) (ordinal today + n)

-- Open or overdue, and due within the window.
abbrev pub is_due : ℕ → Date → Attestation → Bool
is_due n today a = not (is_complete a.status) && is_near n today (parse_iso_date a.due)

collect-keep :
    (n : ℕ) (today : Date) (items : List Attestation) (rows : List AttestationDue)
    → collect (pos n) today items ≡ ok rows
    → map (λ r. r.attestation) rows ≡ keep (is_due n today) items
unfolding collect keep days_until
collect-keep n today [] rows e = ground (arith, e)
collect-keep n today (a ∷ items) rows e = elim (Bool-cases (is_complete a.status)) [
  | inl done ↦ rw done (collect-keep n today items rows (rw done at e))
  | inr still ↦ elim (Option-cases (parse_iso_date a.due)) [
    | inl bad ↦ absurd (ground (arith, e, still, bad))
    | inr (d, real) ↦ elim (Result-cases (collect (pos n) today items)) [
      | inr (x, failed) ↦ absurd (ground (arith, e, still, real, failed))
      | inl (rest, found) ↦
          let below = collect-keep n today items rest found in
          ground (arith, e, still, real, found, below, sub_ℕ-leb (ordinal d) (ordinal today) n)
    ]
  ]
]

-- What a returned list holds.
pub due_lem :
    (n : ℕ) (today : Date) (items : List Attestation) (rows : List AttestationDue)
    → due items (pos n) today ≡ ok rows
    → IsSorted (by_key (λ r. r.attestation.due)) rows
      × Perm (map (λ r. r.attestation) rows) (keep (is_due n today) items)
unfolding due
due_lem n today items rows e = elim (Result-cases (collect (pos n) today items)) [
  | inr (x, failed) ↦ absurd (ground (arith, e, failed))
  | inl (found, p) ↦
      let same : sort_by due_order found ≡ rows = ground (arith, e, p) in
      (
        subst (IsSorted (by_key (λ (r : AttestationDue). r.attestation.due))) same
            (sort_by_key-IsSorted (λ (r : AttestationDue). r.attestation.due) found),
        subst
            (λ (xs : List Attestation). Perm (map (λ (r : AttestationDue). r.attestation) rows) xs)
            (collect-keep n today items found p)
            (Perm.map (λ (r : AttestationDue). r.attestation)
              (subst (λ (xs : List AttestationDue). Perm xs found) same
                (sort_by-Perm due_order found))),
      )
]

abbrev pub is_some_date : Option Date → Bool
is_some_date none = false
is_some_date (some d) = true

abbrev pub is_real_due : Attestation → Bool
is_real_due a = is_complete a.status || is_some_date (parse_iso_date a.due)

collect-ok :
    (n : ℕ) (today : Date) (items : List Attestation)
    → all is_real_due items ≡ true
    → (rows : List AttestationDue) × (collect (pos n) today items ≡ ok rows)
unfolding collect days_until all
collect-ok n today [] h = ([], refl)
collect-ok n today (a ∷ items) h =
    let (rest, found) = collect-ok n today items (ground (arith, h)) in
    elim (Bool-cases (is_complete a.status)) [
      | inl done ↦ rw done (rest, found)
      | inr still ↦ elim (Option-cases (parse_iso_date a.due)) [
        | inl bad ↦ absurd (ground (arith, h, still, bad))
        | inr (d, real) ↦ rw (still, days_until, real, found) (_, refl)
      ]
    ]

-- The list is returned if every attestation that is not complete has a real due date. It holds then
-- exactly the attestations that are not complete and whose due date is at most `n` days after
-- `today`, overdue ones included, in the order of their due dates.
pub due-rows :
    (n : ℕ) (today : Date) (items : List Attestation)
    → all is_real_due items ≡ true
    → (rows : List AttestationDue) × (due items (pos n) today ≡ ok rows)
      × IsSorted (by_key (λ r. r.attestation.due)) rows
      × Perm (map (λ r. r.attestation) rows) (keep (is_due n today) items)
unfolding due
due-rows n today items h =
    let (found, p) = collect-ok n today items h in
    let returned : due items (pos n) today ≡ ok (sort_by due_order found) = rw p refl in
    let (sorted, same) = due_lem n today items (sort_by due_order found) returned in
    (sort_by due_order found, returned, sorted, same)
