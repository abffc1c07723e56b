-- ===== src/Settings/Numbers.antt =====
-- `int(raw)`, by which mcp/src/compliance_mcp/settings.py reads a number: white space around it, a
-- sign, and decimal digits of Unicode with single underscores between them, 4300 digits at most.
use regulatory_compliance_he.Prelude.{
  Text, lit, ℕ, zero, suc, ◌+◌, ◌-◌, ◌*◌, Option, none, some, ◌&&◌, [], ◌∷◌, find_first, strip, leb,
  ltb, nat_eq, if◌then◌else◌, ◌≡◌, refl,
}
use regulatory_compliance_he.Prelude.Int.{ℤ, pos, negsuc}
use regulatory_compliance_he.DraftChecks.Patterns.{zeros}

digit_value : ℕ → Option ℕ
digit_value c = elim (find_first (λ z. leb z c && leb c (z + 9)) zeros) [
  | none ↦ none
  | some z ↦ some (c - z)
]

-- The digits that follow a digit: the value so far and the count of digits.
more_digits : Text → ℕ → ℕ → Option ℕ
more_digits [] acc count = if ltb 4300 count then none else some acc
more_digits (c ∷ []) acc count = elim (digit_value c) [
  | none ↦ none
  | some v ↦ if ltb 4300 (count + 1) then none else some (10 * acc + v)
]
more_digits (c ∷ d ∷ s) acc count =
    let skipped : Option ℕ = elim (digit_value d) [
      | none ↦ none
      | some v ↦ more_digits s (10 * acc + v) (count + 1)
    ] in
    elim (digit_value c) [
      | some v ↦ more_digits (d ∷ s) (10 * acc + v) (count + 1)
      | none ↦ if nat_eq c b'_' then skipped else none
    ]

digits : Text → Option ℕ
digits [] = none
digits (c ∷ s) = elim (digit_value c) [ none ↦ none | some v ↦ more_digits s v 1 ]

abbrev negate : ℕ → ℤ
negate zero = pos 0
negate (suc n) = negsuc n

signed : Text → Option ℤ
signed [] = none
signed (c ∷ s) =
    if nat_eq c b'-'
    then elim (digits s) [ none ↦ none | some n ↦ some (negate n) ]
    else if nat_eq c b'+'
    then elim (digits s) [ none ↦ none | some n ↦ some (pos n) ]
    else elim (digits (c ∷ s)) [ none ↦ none | some n ↦ some (pos n) ]

unfoldable pub parse_int : Text → Option ℤ
unfolding signed digits more_digits digit_value find_first
parse_int raw = signed (strip raw)

parse_int_tests :
    (parse_int (lit " 50_000\n") ≡ some (pos 50_000))
    × (parse_int (lit "-12") ≡ some (negsuc 11))
    × (parse_int (lit "-0") ≡ some (pos 0))
    × (parse_int (lit "1__0") ≡ none)
    × (parse_int (lit "1_") ≡ none)
    × (parse_int (lit "8.5") ≡ none)
    × (parse_int [] ≡ none)
unfolding parse_int lit strip
parse_int_tests = (refl, refl, refl, refl, refl, refl, refl)
