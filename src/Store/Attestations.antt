-- ===== src/Store/Attestations.antt =====
-- `AttestationTracker` of mcp/src/compliance_mcp/store.py, over the attestations that it has loaded.
pub mod Due
use regulatory_compliance_he.Prelude.{
  Text, lit, ℕ, Option, none, some, Bool, true, false, not, ◌&&◌, ◌||◌, List, [], ◌∷◌, ◌++◌, map,
  keep, any, lower, contains, is_empty, ◌==◌, text_le, sort_by, Result, ok, err, if◌then◌else◌,
  ◌>>=◌,
}
use regulatory_compliance_he.Prelude.Int.{ℤ, sub_ℕ, leb_ℤ}
use regulatory_compliance_he.Prelude.Map.{Dict, get, put, values}
use regulatory_compliance_he.Models.{
  Control, TestResult, Ticket, Release, Attestation, AttestationDue, AttestationStatus, open_,
  complete, overdue,
}
use regulatory_compliance_he.Store.Dates.{Date, parse_iso_date, ordinal, in_range}

-- The `ValueError` of an impossible date.
pub data DateError : Type 0 where
  impossible_date : DateError

abbrev pub is_complete : AttestationStatus → Bool
is_complete complete = true
is_complete _ = false

-- The days from `today` to the due date.
unfoldable pub days_until : Text → Date → Result DateError ℤ
days_until due today = elim (parse_iso_date due) [
  | none ↦ err impossible_date
  | some d ↦ ok (sub_ℕ (ordinal d) (ordinal today))
]

abbrev pub add_if : Bool → AttestationDue → List AttestationDue → List AttestationDue
add_if true a out = a ∷ out
add_if false a out = out

-- The loop of `due`.
unfoldable pub collect : ℤ → Date → List Attestation → Result DateError (List AttestationDue)
collect within_days today [] = ok []
collect within_days today (item ∷ items) =
    let rest = collect within_days today items in
    if is_complete item.status
    then rest
    else (days_until item.due today >>= λ days. rest >>= λ out. ok (
        add_if (leb_ℤ days within_days) (record { attestation = item; days_remaining = days }) out))

abbrev pub due_order : AttestationDue → AttestationDue → Bool
due_order a b = text_le a.attestation.due b.attestation.due

unfoldable pub due : List Attestation → ℤ → Date → Result DateError (List AttestationDue)
due items within_days today = collect within_days today items >>= λ out. ok (sort_by due_order out)
