-- ===== src/Store/Dates/Order.antt =====
-- The text order of dates of the shape YYYY-MM-DD, which mcp/src/compliance_mcp/store.py compares
-- dates by, is their order in time.
use regulatory_compliance_he.Prelude.{
  ℕ, zero, suc, ◌+◌, ◌*◌, ◌-◌, ◌/◌, ◌≤◌, ◌<◌, ◌≡◌, ◌⊎◌, refl, ap, true, arith, nat_eq, inl, inr,
  if◌then◌else◌, Bool-cases,
}
use regulatory_compliance_he.Store.Dates.{
  Date, is_leap, days_in_month, is_real, days_before_month, ordinal,
}

-- The order of two dates by year, month and day.
abbrev pub IsBefore : Date → Date → Type 0
IsBefore s t =
    (s.year < t.year)
    ⊎ ((s.year ≡ t.year) × ((s.month < t.month) ⊎ ((s.month ≡ t.month) × (s.day < t.day))))

days_in_month_bounds : (y m : ℕ) → (28 ≤ days_in_month y m) × (days_in_month y m ≤ 31)
unfolding days_in_month
days_in_month_bounds y m = ground arith

days_before_month_step :
    (y m : ℕ) → 1 ≤ m → days_before_month y (suc m) ≡ days_before_month y m + days_in_month y m
unfolding days_before_month
days_before_month_step y zero h = absurd (omega (arith, h))
days_before_month_step y (suc m) h = refl

days_before_month_lt :
    (y m n : ℕ) → 1 ≤ m → m < n → days_before_month y m + days_in_month y m ≤ days_before_month y n
days_before_month_lt y m zero h k = absurd (omega (arith, k))
days_before_month_lt y m (suc n) h k = elim (Bool-cases (nat_eq m n)) [
  | inl e ↦ grind (arith, days_before_month_step y m h)
  | inr e ↦ grind (
    arith,
    days_before_month_lt y m n h (ground (arith, e, k)),
    days_before_month_step y n (ground (arith, e, k)),
  )
]

leap_day : ℕ → ℕ
leap_day y = if is_leap y then 1 else 0

days_in_year : (y : ℕ) → days_before_month y 13 ≡ 365 + leap_day y
unfolding days_before_month days_in_month leap_day
days_in_year y = elim (Bool-cases (is_leap y)) [ inl e ↦ rw e refl | inr e ↦ rw e refl ]

-- The days before the first of January.
before_year : ℕ → ℕ
before_year y = (y - 1) * 365 + (y - 1) / 4 - (y - 1) / 100 + (y - 1) / 400

before_year_step : (y : ℕ) → 1 ≤ y → before_year (suc y) ≡ before_year y + 365 + leap_day y
unfolding before_year leap_day is_leap
before_year_step y h = ground (arith, h)

before_year_lt : (y z : ℕ) → 1 ≤ y → y < z → before_year y + 365 + leap_day y ≤ before_year z
before_year_lt y zero h k = absurd (omega (arith, k))
before_year_lt y (suc z) h k = elim (Bool-cases (nat_eq y z)) [
  | inl e ↦ grind (arith, before_year_step y h)
  | inr e ↦ grind (
    arith,
    before_year_lt y z h (ground (arith, e, k)),
    before_year_step z (ground (arith, e, k)),
  )
]

-- The fields of a real date.
pub record IsReal (t : Date) : Type 0 where
  pub year_pos : 1 ≤ t.year
  pub month_pos : 1 ≤ t.month
  pub month_le : t.month ≤ 12
  pub day_pos : 1 ≤ t.day
  pub day_le : t.day ≤ days_in_month t.year t.month

pub is_real-IsReal : (t : Date) → is_real t.year t.month t.day ≡ true → IsReal t
unfolding is_real
is_real-IsReal t h = record {
  year_pos = ground (arith, h);
  month_pos = ground (arith, h);
  month_le = ground (arith, h);
  day_pos = ground (arith, h);
  day_le = ground (arith, h);
}

-- A real day lies within its year.
day_in_year :
    (t : Date) → IsReal t → days_before_month t.year t.month + t.day ≤ 365 + leap_day t.year
day_in_year t r = omega (
  arith,
  days_before_month_lt t.year t.month 13 r.month_pos (omega (arith, r.month_le)),
  days_in_year t.year,
  r.day_le,
)

ordinal_split :
    (t : Date) → ordinal t ≡ before_year t.year + days_before_month t.year t.month + t.day
unfolding ordinal before_year
ordinal_split t = refl

pub ordinal_lt : (s t : Date) → IsReal s → IsReal t → IsBefore s t → ordinal s < ordinal t
ordinal_lt s t r q (inl y) = omega (
  arith,
  ordinal_split s,
  ordinal_split t,
  before_year_lt s.year t.year r.year_pos y,
  day_in_year s r,
  q.day_pos,
)
ordinal_lt s t r q (inr (y, inl m)) = omega (
  arith,
  ordinal_split s,
  ordinal_split t,
  ap before_year y,
  ap (λ (n : ℕ). days_before_month n s.month) y,
  ap (λ (n : ℕ). days_in_month n s.month) y,
  days_before_month_lt t.year s.month t.month r.month_pos m,
  r.day_le,
  q.day_pos,
)
ordinal_lt s t r q (inr (y, inr (m, d))) = omega (
  arith,
  ordinal_split s,
  ordinal_split t,
  ap before_year y,
  ap (λ (n : ℕ). days_before_month n s.month) y,
  ap (λ (n : ℕ). days_before_month t.year n) m,
  d,
)
