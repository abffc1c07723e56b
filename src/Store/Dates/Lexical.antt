-- ===== src/Store/Dates/Lexical.antt =====
-- Dates of the shape YYYY-MM-DD compare as texts as they do in time, on which the comparisons of
-- mcp/src/compliance_mcp/store.py rely.
use regulatory_compliance_he.Prelude.{
  Text, ℕ, ◌+◌, ◌*◌, ◌-◌, ◌≤◌, ◌<◌, ◌≡◌, ◌↔◌, ◌⊎◌, refl, ap, sym, ◌∙◌, some, Bool, true, false,
  ◌&&◌, ◌||◌, [], ◌∷◌, arith, ltb, nat_eq, text_lt, inl, inr,
}
use regulatory_compliance_he.Store.Dates.{Date, is_digit, number_of, parse_iso_date, ordinal}
use regulatory_compliance_he.Store.Dates.Order.{IsBefore, IsReal, is_real-IsReal, ordinal_lt}

-- A first difference, or the rest.
abbrev first_lt : ℕ → ℕ → Bool → Bool
first_lt a b x = ltb a b || (nat_eq a b && x)

-- The number of two digits.
abbrev two : ℕ → ℕ → ℕ
two a b = 10 * (a - b'0') + (b - b'0')

-- Two digits compare as their number does.
first_lt-two :
    (a b c d : ℕ) (x : Bool)
    → is_digit a ≡ true
    → is_digit b ≡ true
    → is_digit c ≡ true
    → is_digit d ≡ true
    → first_lt a c (first_lt b d x) ≡ first_lt (two a b) (two c d) x
unfolding is_digit
first_lt-two a b c d x ha hb hc hd = ground (arith, ha, hb, hc, hd)

-- The ten characters of a date.
record IsIso (text : Text) (t : Date) : Type 0 where
  y₁ : ℕ
  y₂ : ℕ
  y₃ : ℕ
  y₄ : ℕ
  m₁ : ℕ
  m₂ : ℕ
  d₁ : ℕ
  d₂ : ℕ
  written : text ≡ y₁ ∷ y₂ ∷ y₃ ∷ y₄ ∷ b'-' ∷ m₁ ∷ m₂ ∷ b'-' ∷ d₁ ∷ d₂ ∷ []
  digit_y₁ : is_digit y₁ ≡ true
  digit_y₂ : is_digit y₂ ≡ true
  digit_y₃ : is_digit y₃ ≡ true
  digit_y₄ : is_digit y₄ ≡ true
  digit_m₁ : is_digit m₁ ≡ true
  digit_m₂ : is_digit m₂ ≡ true
  digit_d₁ : is_digit d₁ ≡ true
  digit_d₂ : is_digit d₂ ≡ true
  year_read : t.year ≡ 100 * two y₁ y₂ + two y₃ y₄
  month_read : t.month ≡ two m₁ m₂
  day_read : t.day ≡ two d₁ d₂
  real : IsReal t

ten-IsIso :
    (y₁ y₂ y₃ y₄ s₁ m₁ m₂ s₂ d₁ d₂ : ℕ) (t : Date)
    → parse_iso_date (y₁ ∷ y₂ ∷ y₃ ∷ y₄ ∷ s₁ ∷ m₁ ∷ m₂ ∷ s₂ ∷ d₁ ∷ d₂ ∷ []) ≡ some t
    → IsIso (y₁ ∷ y₂ ∷ y₃ ∷ y₄ ∷ s₁ ∷ m₁ ∷ m₂ ∷ s₂ ∷ d₁ ∷ d₂ ∷ []) t
unfolding parse_iso_date number_of
ten-IsIso y₁ y₂ y₃ y₄ s₁ m₁ m₂ s₂ d₁ d₂ t e = record {
  y₁ = y₁;
  y₂ = y₂;
  y₃ = y₃;
  y₄ = y₄;
  m₁ = m₁;
  m₂ = m₂;
  d₁ = d₁;
  d₂ = d₂;
  written = ground (arith, e);
  digit_y₁ = ground (arith, e);
  digit_y₂ = ground (arith, e);
  digit_y₃ = ground (arith, e);
  digit_y₄ = ground (arith, e);
  digit_m₁ = ground (arith, e);
  digit_m₂ = ground (arith, e);
  digit_d₁ = ground (arith, e);
  digit_d₂ = ground (arith, e);
  year_read = ground (arith, e);
  month_read = ground (arith, e);
  day_read = ground (arith, e);
  real = is_real-IsReal t (ground (arith, e));
}

parse-IsIso : (text : Text) (t : Date) → parse_iso_date text ≡ some t → IsIso text t
unfolding parse_iso_date
parse-IsIso (y₁ ∷ y₂ ∷ y₃ ∷ y₄ ∷ s₁ ∷ m₁ ∷ m₂ ∷ s₂ ∷ d₁ ∷ d₂ ∷ []) t e =
    ten-IsIso y₁ y₂ y₃ y₄ s₁ m₁ m₂ s₂ d₁ d₂ t e
parse-IsIso _ t e = absurd (cc e)

-- The numbers of two dates, compared one after the other.
abbrev date_lt : Date → Date → Bool
date_lt s t = first_lt s.year t.year (first_lt s.month t.month (first_lt s.day t.day false))

date_lt-IsBefore : (s t : Date) → (date_lt s t ≡ true) ↔ IsBefore s t
date_lt-IsBefore s t = (λ e. ground (arith, e), λ h. ground (arith, h))

first_lt_same : (x : Bool) (c : ℕ) → first_lt c c x ≡ x
first_lt_same x c = ground arith

first_lt-years :
    (a b c d : ℕ) (x : Bool)
    → b ≤ 99
    → d ≤ 99
    → first_lt a c (first_lt b d x) ≡ first_lt (100 * a + b) (100 * c + d) x
first_lt-years a b c d x h k = ground (arith, h, k)

two-le : (a b : ℕ) → is_digit a ≡ true → is_digit b ≡ true → two a b ≤ 99
unfolding is_digit
two-le a b h k = ground (arith, h, k)

text_lt-date_lt : (s t : Text) (a b : Date) → IsIso s a → IsIso t b → text_lt s t ≡ date_lt a b
unfolding text_lt
text_lt-date_lt s t a b p q =
    let day = first_lt-two p.d₁ p.d₂ q.d₁ q.d₂ false p.digit_d₁ p.digit_d₂ q.digit_d₁ q.digit_d₂ in
    let month =
      first_lt-two p.m₁ p.m₂ q.m₁ q.m₂ (first_lt (two p.d₁ p.d₂) (two q.d₁ q.d₂) false) p.digit_m₁
        p.digit_m₂ q.digit_m₁ q.digit_m₂ in
    let rest =
      first_lt (two p.m₁ p.m₂) (two q.m₁ q.m₂) (first_lt (two p.d₁ p.d₂) (two q.d₁ q.d₂) false) in
    let low = first_lt-two p.y₃ p.y₄ q.y₃ q.y₄ rest p.digit_y₃ p.digit_y₄ q.digit_y₃ q.digit_y₄ in
    let high =
      first_lt-two p.y₁ p.y₂ q.y₁ q.y₂ (first_lt (two p.y₃ p.y₄) (two q.y₃ q.y₄) rest) p.digit_y₁
        p.digit_y₂ q.digit_y₁ q.digit_y₂ in
    let year =
      first_lt-years (two p.y₁ p.y₂) (two p.y₃ p.y₄) (two q.y₁ q.y₂) (two q.y₃ q.y₄) rest
        (two-le p.y₃ p.y₄ p.digit_y₃ p.digit_y₄) (two-le q.y₃ q.y₄ q.digit_y₃ q.digit_y₄) in
    rw
      (
        p.written, q.written, p.year_read, q.year_read, p.month_read, q.month_read, p.day_read,
        q.day_read,
      )
      (ap
          (λ (x : Bool). first_lt p.y₁ q.y₁ (
            first_lt p.y₂ q.y₂ (
              first_lt p.y₃ q.y₃ (first_lt p.y₄ q.y₄ (first_lt p.m₁ q.m₁ (first_lt p.m₂ q.m₂ x))))))
          day
        ∙ ap
            (λ (x : Bool).
              first_lt p.y₁ q.y₁ (first_lt p.y₂ q.y₂ (first_lt p.y₃ q.y₃ (first_lt p.y₄ q.y₄ x))))
            month
        ∙ ap (λ (x : Bool). first_lt p.y₁ q.y₁ (first_lt p.y₂ q.y₂ x)) low
        ∙ high
        ∙ year)

IsBefore-total :
    (s t : Date)
    → IsBefore s t ⊎ (IsBefore t s ⊎ ((s.year ≡ t.year) × (s.month ≡ t.month) × (s.day ≡ t.day)))
IsBefore-total s t = ground arith

ordinal_same :
    (s t : Date) → (s.year ≡ t.year) × (s.month ≡ t.month) × (s.day ≡ t.day) → ordinal s ≡ ordinal t
unfolding ordinal
ordinal_same s t (y, m, d) = rw (y, m, d) refl

-- Two dates of the shape YYYY-MM-DD stand in the order of their texts exactly if the first is the
-- earlier day of the calendar.
pub text_lt-ordinal :
    (s t : Text) (a b : Date)
    → parse_iso_date s ≡ some a
    → parse_iso_date t ≡ some b
    → (text_lt s t ≡ true) ↔ (ordinal a < ordinal b)
text_lt-ordinal s t a b p q =
    let first = parse-IsIso s a p in
    let second = parse-IsIso t b q in
    let same = text_lt-date_lt s t a b first second in
    let order = date_lt-IsBefore a b in
    (
      λ e. ordinal_lt a b first.real second.real (order.0 (sym same ∙ e)),
      λ e. elim (IsBefore-total a b) [
        | inl before ↦ same ∙ order.1 before
        | inr (inl after) ↦ absurd (omega (arith, e, ordinal_lt b a second.real first.real after))
        | inr (inr equal) ↦ absurd (omega (arith, e, ordinal_same a b equal))
      ],
    )
