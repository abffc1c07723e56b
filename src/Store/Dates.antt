-- ===== src/Store/Dates.antt =====
-- `parse_iso_date` of mcp/src/compliance_mcp/models.py on texts of the `IsoDate` shape, the proleptic
-- Gregorian ordinal that Python's date arithmetic counts in, and `_in_range` of store.py.
pub mod Order
pub mod Lexical
pub mod Range
use regulatory_compliance_he.Prelude.{
  Text, lit, ℕ, zero, suc, ◌+◌, ◌*◌, ◌-◌, ◌/◌, ◌%◌, Option, none, some, Bool, true, false, not,
  ◌&&◌, ◌||◌, List, [], ◌∷◌, is_empty, leb, nat_eq, text_le, if◌then◌else◌, ◌≡◌, refl,
}

pub record Date : Type 0 where
  pub year : ℕ
  pub month : ℕ
  pub day : ℕ

unfoldable pub is_digit : ℕ → Bool
is_digit c = leb b'0' c && leb c b'9'

unfoldable pub is_leap : ℕ → Bool
is_leap y = nat_eq (y % 4) 0 && (not (nat_eq (y % 100) 0) || nat_eq (y % 400) 0)

unfoldable pub days_in_month : ℕ → ℕ → ℕ
unfolding is_leap
days_in_month y m =
    if nat_eq m 2
    then if is_leap y then 29 else 28
    else if nat_eq m 4 || nat_eq m 6 || nat_eq m 9 || nat_eq m 11
    then 30
    else 31

unfoldable pub is_real : ℕ → ℕ → ℕ → Bool
is_real y m d = leb 1 y && leb 1 m && leb m 12 && leb 1 d && leb d (days_in_month y m)

unfoldable pub number_of : List ℕ → ℕ → ℕ
number_of [] acc = acc
number_of (c ∷ cs) acc = number_of cs (10 * acc + (c - b'0'))

-- `date.fromisoformat` on `YYYY-MM-DD`
unfoldable pub parse_iso_date : Text → Option Date
parse_iso_date (y₁ ∷ y₂ ∷ y₃ ∷ y₄ ∷ s₁ ∷ m₁ ∷ m₂ ∷ s₂ ∷ d₁ ∷ d₂ ∷ []) =
    let y = number_of (y₁ ∷ y₂ ∷ y₃ ∷ y₄ ∷ []) 0 in
    let m = number_of (m₁ ∷ m₂ ∷ []) 0 in
    let d = number_of (d₁ ∷ d₂ ∷ []) 0 in
    if is_digit y₁
      && is_digit y₂
      && is_digit y₃
      && is_digit y₄
      && nat_eq s₁ b'-'
      && is_digit m₁
      && is_digit m₂
      && nat_eq s₂ b'-'
      && is_digit d₁
      && is_digit d₂
      && is_real y m d
    then some (record { year = y; month = m; day = d })
    else none
parse_iso_date _ = none

-- The days of a year before the first of a month.
unfoldable pub days_before_month : ℕ → ℕ → ℕ
days_before_month y zero = 0
days_before_month y (suc zero) = 0
days_before_month y (suc (suc m)) = days_before_month y (suc m) + days_in_month y (suc m)

-- `date.toordinal()`; the first of January of the year 1 has the number 1.
unfoldable pub ordinal : Date → ℕ
ordinal t =
    let y = t.year - 1 in
    y * 365 + y / 4 - y / 100 + y / 400 + days_before_month t.year t.month + t.day

abbrev unless_empty : Option Text → (Text → Bool) → Bool
unless_empty none f = true
unless_empty (some t) f = is_empty t || f t

-- `_in_range`
unfoldable pub in_range : Text → Option Text → Option Text → Bool
in_range day start end =
    unless_empty start (λ s. text_le s day) && unless_empty end (λ e. text_le day e)

ordinal_example :
    (parse_iso_date (lit "2024-02-29") ≡ some (record { year = 2024; month = 2; day = 29 }))
    × (parse_iso_date (lit "2023-02-29") ≡ none)
    × (ordinal (record { year = 2024; month = 3; day = 1 }) ≡ 738946)
    × (ordinal (record { year = 1; month = 1; day = 1 }) ≡ 1)
unfolding parse_iso_date lit is_digit number_of is_real days_in_month ordinal days_before_month
ordinal_example = (refl, refl, refl, refl)
