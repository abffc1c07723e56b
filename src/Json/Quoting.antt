-- ===== src/Json/Quoting.antt =====
-- The strings that Json.antt prints, and how their escapes are read back.
use regulatory_compliance_he.Prelude.{
  Text, lit, ℕ, ◌+◌, ◌-◌, ◌*◌, ◌/◌, ◌%◌, ◌<◌, ◌≡◌, ◌≢◌, refl, sym, ap, ◌∙◌, Bool, false, [], ◌∷◌,
  ◌++◌, arith, ltb, nat_eq, if◌then◌else◌,
}
use mathlib.Core.List.{append_assoc}
use regulatory_compliance_he.Json.{hex_digit, escape, escape_all, quote}

value : ℕ → ℕ
value a = if ltb a b'a' then a - b'0' else a - b'a' + 10

value-hex_digit : (n : ℕ) → n < 16 → value (hex_digit n) ≡ n
unfolding value hex_digit
value-hex_digit n h = ground (arith, h)

-- The character that a letter after a backslash stands for.
meant : ℕ → ℕ
meant c =
    if nat_eq c b'b'
    then 8
    else if nat_eq c b't'
    then 9
    else if nat_eq c b'n'
    then 10
    else if nat_eq c b'f'
    then 12
    else if nat_eq c b'r'
    then 13
    else c

hexadecimal : Text → ℕ × Text
unfolding value
hexadecimal (z ∷ y ∷ a ∷ b ∷ s) = (16 * value a + value b, s)
hexadecimal _ = (0, [])

after_backslash : Text → ℕ × Text
unfolding hexadecimal meant
after_backslash [] = (0, [])
after_backslash (c ∷ s) = if nat_eq c b'u' then hexadecimal s else (meant c, s)

-- The first character of an escaped text, and the rest.
unescape : Text → ℕ × Text
unfolding after_backslash
unescape [] = (0, [])
unescape (c ∷ s) = if nat_eq c b'\\' then after_backslash s else (c, s)

ends : Text → Bool
ends [] = false
ends (c ∷ s) = nat_eq c b'"'

unescape-escape : (c : ℕ) (s : Text) → unescape (escape c ++ s) ≡ (c, s)
unfolding unescape after_backslash hexadecimal meant escape lit
unescape-escape c s = ground (arith, value-hex_digit (c / 16), value-hex_digit (c % 16))

ends-escape : (c : ℕ) (s : Text) → ends (escape c ++ s) ≡ false
unfolding ends escape lit
ends-escape c s = ground arith

closed : Text → Text
unfolding escape_all
closed s = escape_all s ++ (b'"' ∷ [])

closed-cons : (c : ℕ) (s : Text) → closed (c ∷ s) ≡ escape c ++ closed s
unfolding closed escape_all
closed-cons c s = append_assoc (escape c) (escape_all s) (b'"' ∷ [])

closed-nil : (d : ℕ) (t : Text) → closed [] ≢ closed (d ∷ t)
unfolding closed escape_all ends
closed-nil d t e =
    let split = closed-cons d t in
    let inner = ends-escape d (closed t) in let first = ap ends (e ∙ split) ∙ inner in cc

closed_heads :
    (c d : ℕ) (s t : Text)
    → closed (c ∷ s) ≡ closed (d ∷ t)
    → ◌≡◌ {A = ℕ × Text} (c, closed s) (d, closed t)
closed_heads c d s t e =
    sym (unescape-escape c (closed s))
    ∙ ap unescape (sym (closed-cons c s) ∙ e ∙ closed-cons d t)
    ∙ unescape-escape d (closed t)

closed_injective : (s t : Text) → closed s ≡ closed t → s ≡ t
closed_injective [] [] e = refl
closed_injective [] (d ∷ t) e = absurd (closed-nil d t e)
closed_injective (c ∷ s) [] e = absurd (closed-nil c s (sym e))
closed_injective (c ∷ s) (d ∷ t) e =
    let heads = closed_heads c d s t e in
    let same = ap (λ (p : ℕ × Text). p.0) heads in
    let rest = closed_injective s t (ap (λ (p : ℕ × Text). p.1) heads) in cc

-- Two texts that print the same are the same.
pub quote_injective : (s t : Text) → quote s ≡ quote t → s ≡ t
unfolding quote closed
quote_injective s t e = closed_injective s t cc
