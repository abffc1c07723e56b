-- ===== src/Prelude/Strings.antt =====
-- Python's `str` as the list of its code points, with the methods that the program calls.
-- `lower` and `upper` change the ASCII letters only; white space is the set of `str.isspace`.
use Prim.Native.Nat.{ℕ, zero, suc, ◌+◌, ◌-◌, ◌/◌, ◌%◌, ◌≤◌}
use Prim.Native.Char.{code}
use Prim.Native.String.{String}
use mathlib.Core.Path.{◌≡◌, refl, sym}
use mathlib.Core.Logic.{◌↔◌, inl, inr}
use mathlib.Core.Bool.{Bool, true, false, not, ◌&&◌, ◌||◌}
use mathlib.Core.List.{List, [], ◌∷◌, ◌++◌, map, reverse, Memᴰ}
use native.Mathlib.Omega.{arith}
use regulatory_compliance_he.Prelude.Lists.{any, All}
use regulatory_compliance_he.Prelude.Tests.{Bool-cases, leb, ltb, nat_eq, if◌then◌else◌}

abbrev pub Text : Type 0
Text = List ℕ

-- A text literal of the source.
unfoldable pub lit : String → Text
lit String.[] = []
lit (String.◌∷◌ c s) = code c ∷ lit s

infix 50 ◌==◌
unfoldable pub ◌==◌ : Text → Text → Bool
[] == [] = true
[] == (d ∷ t) = false
(c ∷ s) == [] = false
(c ∷ s) == (d ∷ t) = nat_eq c d && (s == t)

pub eq_iff : (s t : Text) → ((s == t) ≡ true) ↔ (s ≡ t)
unfolding ◌==◌
eq_iff [] [] = ground arith
eq_iff [] (d ∷ t) = ground arith
eq_iff (c ∷ s) [] = ground arith
eq_iff (c ∷ s) (d ∷ t) = ground (arith, eq_iff s t)

pub eq_refl : (s : Text) → (s == s) ≡ true
eq_refl s = (eq_iff s s).1 refl

-- A text that a test for equality finds in a list.
pub any_eq-Mem : (x : Text) (xs : List Text) → any (λ h. h == x) xs ≡ true → Memᴰ x xs
unfolding any
any_eq-Mem x [] h = absurd (cc h)
any_eq-Mem x (y ∷ ys) h = elim (Bool-cases (y == x)) [
  | inl e ↦ Memᴰ.head (sym ((eq_iff y x).0 e))
  | inr e ↦ Memᴰ.tail (any_eq-Mem x ys (ground (arith, e, h)))
]

-- `bool(s)` of a text
abbrev pub is_empty : Text → Bool
is_empty [] = true
is_empty (c ∷ s) = false

unfoldable pub is_space : ℕ → Bool
is_space c =
    (leb 9 c && leb c 13)
    || (leb 28 c && leb c 32)
    || nat_eq c 0x85
    || nat_eq c 0xa0
    || nat_eq c 0x1680
    || (leb 0x2000 c && leb c 0x200a)
    || nat_eq c 0x2028
    || nat_eq c 0x2029
    || nat_eq c 0x202f
    || nat_eq c 0x205f
    || nat_eq c 0x3000

unfoldable pub lower_char : ℕ → ℕ
lower_char c = if leb b'A' c && leb c b'Z' then c + 32 else c

unfoldable pub lower : Text → Text
unfolding lower_char
lower s = map lower_char s

unfoldable pub upper_char : ℕ → ℕ
upper_char c = if leb b'a' c && leb c b'z' then c - 32 else c

unfoldable pub upper : Text → Text
unfolding upper_char
upper s = map upper_char s

unfoldable pub strip_left : Text → Text
unfolding is_space
strip_left [] = []
strip_left (c ∷ s) = if is_space c then strip_left s else c ∷ s

-- `s.strip()`
unfoldable pub strip : Text → Text
unfolding strip_left
strip s = reverse (strip_left (reverse (strip_left s)))

-- `not s.strip()`
abbrev pub is_blank : Text → Bool
is_blank s = is_empty (strip s)

unfoldable pub starts_with : Text → Text → Bool
starts_with s [] = true
starts_with [] (d ∷ t) = false
starts_with (c ∷ s) (d ∷ t) = nat_eq c d && starts_with s t

-- `needle in s`
unfoldable pub contains : Text → Text → Bool
unfolding starts_with
contains needle [] = starts_with [] needle
contains needle (c ∷ s) = starts_with (c ∷ s) needle || contains needle s

-- `s < t` and `s <= t`: by code points, a prefix first
unfoldable pub text_lt : Text → Text → Bool
text_lt [] [] = false
text_lt [] (d ∷ t) = true
text_lt (c ∷ s) [] = false
text_lt (c ∷ s) (d ∷ t) = ltb c d || (nat_eq c d && text_lt s t)

abbrev pub text_le : Text → Text → Bool
text_le s t = not (text_lt t s)

-- `sep.join(parts)`
unfoldable pub join : Text → List Text → Text
join sep [] = []
join sep (p ∷ []) = p
join sep (p ∷ q ∷ ps) = p ++ (sep ++ join sep (q ∷ ps))

-- The decimal digits of a number, as an f-string prints it; a number has fewer digits than its fuel.
digits_fuel : ℕ → ℕ → Text → Text
digits_fuel zero n acc = acc
digits_fuel (suc f) n acc =
    let out = (b'0' + n % 10) ∷ acc in
    let rest = digits_fuel f (n / 10) out in if ltb n 10 then out else rest

unfoldable pub decimal : ℕ → Text
unfolding digits_fuel
decimal n = digits_fuel (suc n) n []

abbrev pub IsDigit : ℕ → Type 0
IsDigit c = (b'0' ≤ c) × (c ≤ b'9')

digits_fuel-All : (f n : ℕ) (acc : Text) → All IsDigit acc → All IsDigit (digits_fuel f n acc)
unfolding digits_fuel
digits_fuel-All zero n acc h = h
digits_fuel-All (suc f) n acc h =
    let digit : IsDigit (b'0' + n % 10) = (omega arith, omega arith) in
    elim (Bool-cases (ltb n 10)) [
      | inl e ↦ rw e (digit, h)
      | inr e ↦ rw e (digits_fuel-All f (n / 10) ((b'0' + n % 10) ∷ acc) (digit, h))
    ]

pub decimal-All : (n : ℕ) → All IsDigit (decimal n)
unfolding decimal
decimal-All n = digits_fuel-All (suc n) n [] tt

text_tests :
    (strip (lit " a b\n") ≡ lit "a b")
    × (lower (lit "Ab-9") ≡ lit "ab-9")
    × (contains (lit "bc") (lit "abcd") ≡ true)
    × (text_lt (lit "2024-01-31") (lit "2024-02") ≡ true)
    × (join (lit ", ") (lit "a" ∷ lit "b" ∷ []) ≡ lit "a, b")
    × (decimal 2026 ≡ lit "2026")
unfolding strip lower contains text_lt join decimal lit
text_tests = (refl, refl, refl, refl, refl, refl)
