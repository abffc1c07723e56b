-- ===== src/Json/Injective.antt =====
-- What the text of an object, as Json.antt prints it for a hash, determines.
use regulatory_compliance_he.Prelude.{
  Text, lit, ◌≡◌, ◌≢◌, refl, sym, ap, ◌∙◌, List, [], ◌∷◌, ◌++◌, map, arith, join, All, drop, ℕ,
}
use mathlib.Core.List.{append-nil, append_assoc}
use regulatory_compliance_he.Prelude.Sorting.{sort_by-All}
use regulatory_compliance_he.Prelude.Sorted.{in_order}
use regulatory_compliance_he.Json.{quote, object, by_name}
use regulatory_compliance_he.Json.Scanner.{plain, step, cut, cut-append}
use regulatory_compliance_he.Json.Balanced.{IsBalanced, quote-IsBalanced}
use regulatory_compliance_he.Json.Quoting.{quote_injective}

-- A text at which the scanner stops at once.
IsBound : Text → Type 0
IsBound r = cut (0, plain) r ≡ ([], r)

cut_bound : (t r : Text) → IsBalanced t → IsBound r → cut (0, plain) (t ++ r) ≡ (t, r)
unfolding IsBound
cut_bound t r h b =
    cut-append t r (0, plain) (0, plain) (h 0)
    ∙ ap (λ (p : Text × Text). (t ++ p.0, p.1)) b
    ∙ ap (λ (l : Text). (l, r)) (append-nil t)

same_cut :
    (t t' r r' : Text)
    → IsBalanced t
    → IsBalanced t'
    → IsBound r
    → IsBound r'
    → t ++ r ≡ t' ++ r'
    → (t ≡ t') × (r ≡ r')
same_cut t t' r r' h h' b b' e =
    let whole : ◌≡◌ {A = Text × Text} (t, r) (t', r') =
      sym (cut_bound t r h b) ∙ ap (cut (0, plain)) e ∙ cut_bound t' r' h' b' in
    (ap (λ (p : Text × Text). p.0) whole, ap (λ (p : Text × Text). p.1) whole)

abbrev Entry : Type 0
Entry = Text × Text

abbrev entry : Entry → Text
entry m = quote m.0 ++ (lit ":" ++ m.1)

-- What stands after an entry, up to the end of the object.
tail : List Entry → Text
tail [] = lit "}"
tail (m ∷ ms) = lit "," ++ (quote m.0 ++ (lit ":" ++ (m.1 ++ tail ms)))

body : Entry → List Entry → Text
unfolding tail
body m ms = quote m.0 ++ (lit ":" ++ (m.1 ++ tail ms))

tail-IsBound : (ms : List Entry) → IsBound (tail ms)
unfolding IsBound tail cut step lit
tail-IsBound [] = refl
tail-IsBound (m ∷ ms) = refl

colon-IsBound : (t : Text) → IsBound (lit ":" ++ t)
unfolding IsBound cut step lit
colon-IsBound t = refl

-- The keys, the values and what follows.
body_injective :
    (m m' : Entry) (ms ms' : List Entry)
    → IsBalanced m.1
    → IsBalanced m'.1
    → body m ms ≡ body m' ms'
    → (m ≡ m') × (tail ms ≡ tail ms')
unfolding body lit
body_injective (k, v) (k', v') ms ms' h h' e =
    let (key, after) =
      same_cut (quote k) (quote k') (lit ":" ++ (v ++ tail ms)) (lit ":" ++ (v' ++ tail ms'))
        (quote-IsBalanced k) (quote-IsBalanced k') (colon-IsBound (v ++ tail ms))
        (colon-IsBound (v' ++ tail ms')) e in
    let name = quote_injective k k' key in
    let value : v ++ tail ms ≡ v' ++ tail ms' = cc in
    let (val, rest) =
      same_cut v v' (tail ms) (tail ms') h h' (tail-IsBound ms) (tail-IsBound ms') value in
    (cc, rest)

abbrev first_char : Text → ℕ
first_char [] = 0
first_char (c ∷ t) = c

tail-nil : (m : Entry) (ms : List Entry) → tail [] ≢ tail (m ∷ ms)
unfolding tail lit
tail-nil m ms e = let differ : b'}' ≡ b',' = ap first_char e in omega (arith, differ)

tail-cons :
    (m m' : Entry) (ms ms' : List Entry) → tail (m ∷ ms) ≡ tail (m' ∷ ms') → body m ms ≡ body m' ms'
unfolding tail body lit
tail-cons m m' ms ms' e = ap (drop 1) e

tail_injective :
    (ms ms' : List Entry)
    → All (λ m. IsBalanced m.1) ms
    → All (λ m. IsBalanced m.1) ms'
    → tail ms ≡ tail ms'
    → ms ≡ ms'
tail_injective [] [] h h' e = refl
tail_injective [] (m ∷ ms') h h' e = absurd (tail-nil m ms' e)
tail_injective (m ∷ ms) [] h h' e = absurd (tail-nil m ms (sym e))
tail_injective (m ∷ ms) (m' ∷ ms') (h, hs) (h', hs') e =
    let (one, others) = body_injective m m' ms ms' h h' (tail-cons m m' ms ms' e) in
    let rest = tail_injective ms ms' hs hs' others in cc

regroup : (m : Entry) (t : Text) → entry m ++ t ≡ quote m.0 ++ (lit ":" ++ (m.1 ++ t))
unfolding lit
regroup (k, v) t = append_assoc (quote k) (lit ":" ++ v) t

regroup_join :
    (m : Entry) (t : Text)
    → (entry m ++ (lit "," ++ t)) ++ lit "}"
      ≡ quote m.0 ++ (lit ":" ++ (m.1 ++ (lit "," ++ (t ++ lit "}"))))
unfolding lit
regroup_join m t =
    append_assoc (entry m) (lit "," ++ t) (lit "}") ∙ regroup m (lit "," ++ (t ++ lit "}"))

join-body :
    (m : Entry) (ms : List Entry) → join (lit ",") (map entry (m ∷ ms)) ++ lit "}" ≡ body m ms
unfolding body tail join
join-body m [] = regroup m (lit "}")
join-body m (n ∷ ms) =
    regroup_join m (join (lit ",") (map entry (n ∷ ms)))
    ∙ ap (λ (t : Text). quote m.0 ++ (lit ":" ++ (m.1 ++ (lit "," ++ t)))) (join-body n ms)

abbrev content : List Entry → Text
content ms = join (lit ",") (map entry ms) ++ lit "}"

content-nil : (m : Entry) (ms : List Entry) → content [] ≢ content (m ∷ ms)
unfolding join body quote lit
content-nil m ms e =
    let differ : b'}' ≡ b'"' = ap first_char (e ∙ join-body m ms) in omega (arith, differ)

content_injective :
    (ms ms' : List Entry)
    → All (λ m. IsBalanced m.1) ms
    → All (λ m. IsBalanced m.1) ms'
    → content ms ≡ content ms'
    → ms ≡ ms'
content_injective [] [] h h' e = refl
content_injective [] (m ∷ ms') h h' e = absurd (content-nil m ms' e)
content_injective (m ∷ ms) [] h h' e = absurd (content-nil m ms (sym e))
content_injective (m ∷ ms) (m' ∷ ms') (h, hs) (h', hs') e =
    let same = sym (join-body m ms) ∙ e ∙ join-body m' ms' in
    let (one, others) = body_injective m m' ms ms' h h' same in
    let rest = tail_injective ms ms' hs hs' others in cc

pub object_injective :
    (ms ms' : List Entry)
    → All (λ m. IsBalanced m.1) ms
    → All (λ m. IsBalanced m.1) ms'
    → object (lit ",") (lit ":") ms ≡ object (lit ",") (lit ":") ms'
    → in_order ms ≡ in_order ms'
unfolding object lit
object_injective ms ms' h h' e =
    content_injective (in_order ms) (in_order ms') (sort_by-All by_name (λ m. IsBalanced m.1) ms h)
      (sort_by-All by_name (λ m. IsBalanced m.1) ms' h') (ap (drop 1) e)
