-- ===== src/Json/Balanced.antt =====
-- The values that Json.antt prints, as the scanner reads them.
use regulatory_compliance_he.Prelude.{
  Text, lit, decimal, ℕ, suc, ◌/◌, ◌%◌, ◌≡◌, refl, some, true, false, List, [], ◌∷◌, ◌++◌, map,
  arith, IsDigit, decimal-All, join, sort_by, All, nat_eq,
}
use regulatory_compliance_he.Prelude.Sorting.{sort_by-All}
use regulatory_compliance_he.Prelude.Int.{ℤ, pos, negsuc}
use regulatory_compliance_he.Json.{
  Json, Items, Members, null, boolean, number, str, arr, obj, nil, cons, end, member, hex_digit,
  escape, escape_all, quote, integer, by_name, object, render, render_items, render_members,
}
use regulatory_compliance_he.Json.Scanner.{plain, inside, run, step, run-append}

-- A text that leaves the scanner as it was, outside or inside brackets; and one that does so inside.
abbrev pub IsBalanced : Text → Type 0
IsBalanced t = (n : ℕ) → run (n, plain) t ≡ some (n, plain)

abbrev pub IsInner : Text → Type 0
IsInner t = (n : ℕ) → run (suc n, plain) t ≡ some (suc n, plain)

abbrev IsContent : Text → Type 0
IsContent t = (n : ℕ) → run (n, inside) t ≡ some (n, inside)

hex_digit_lem : (n : ℕ) → (nat_eq (hex_digit n) b'"' ≡ false) × (nat_eq (hex_digit n) b'\\' ≡ false)
unfolding hex_digit
hex_digit_lem n = ground arith

escape-IsContent : (c : ℕ) → IsContent (escape c)
unfolding escape run step lit
escape-IsContent c n = ground (arith, hex_digit_lem (c / 16), hex_digit_lem (c % 16))

escape_all-IsContent : (s : Text) → IsContent (escape_all s)
unfolding escape_all run
escape_all-IsContent [] n = refl
escape_all-IsContent (c ∷ s) n =
    run-append (escape c) (escape_all s) (n, inside) (n, inside) (n, inside) (escape-IsContent c n)
      (escape_all-IsContent s n)

pub quote-IsBalanced : (s : Text) → IsBalanced (quote s)
unfolding quote run step
quote-IsBalanced s n =
    run-append (escape_all s) (b'"' ∷ []) (n, inside) (n, inside) (n, plain)
      (escape_all-IsContent s n) refl

digits-IsBalanced : (s : Text) → All IsDigit s → IsBalanced s
unfolding run step
digits-IsBalanced [] h n = refl
digits-IsBalanced (c ∷ s) ((low, high), hs) n =
    let same : step (n, plain) c ≡ some (n, plain) = ground (arith, low, high) in
    rw same (digits-IsBalanced s hs n)

integer-IsBalanced : (z : ℤ) → IsBalanced (integer z)
unfolding integer run step
integer-IsBalanced (pos m) = digits-IsBalanced (decimal m) (decimal-All m)
integer-IsBalanced (negsuc m) = digits-IsBalanced (decimal (suc m)) (decimal-All (suc m))

IsInner-append : (s t : Text) → IsInner s → IsInner t → IsInner (s ++ t)
IsInner-append s t hs ht n =
    run-append s t (suc n, plain) (suc n, plain) (suc n, plain) (hs n) (ht n)

comma-IsInner : IsInner (lit ",")
unfolding run step lit
comma-IsInner n = refl

colon-IsInner : IsInner (lit ":")
unfolding run step lit
colon-IsInner n = refl

join-IsInner : (ps : List Text) → All IsInner ps → IsInner (join (lit ",") ps)
unfolding join run
join-IsInner [] h = λ n. refl
join-IsInner (p ∷ []) (h, hs) = h
join-IsInner (p ∷ q ∷ ps) (h, hs) =
    IsInner-append p _ h (IsInner-append (lit ",") _ comma-IsInner (join-IsInner (q ∷ ps) hs))

array-IsBalanced : (t : Text) → IsInner t → IsBalanced (lit "[" ++ (t ++ lit "]"))
unfolding run step lit
array-IsBalanced t h n = run-append t (lit "]") (suc n, plain) (suc n, plain) (n, plain) (h n) refl

braces-IsBalanced : (t : Text) → IsInner t → IsBalanced (lit "{" ++ (t ++ lit "}"))
unfolding run step lit
braces-IsBalanced t h n = run-append t (lit "}") (suc n, plain) (suc n, plain) (n, plain) (h n) refl

entry-IsInner : (k v : Text) → IsBalanced v → IsInner (quote k ++ (lit ":" ++ v))
entry-IsInner k v h =
    IsInner-append (quote k) _ (λ n. quote-IsBalanced k (suc n))
      (IsInner-append (lit ":") v colon-IsInner (λ n. h (suc n)))

entries-IsInner :
    (ms : List (Text × Text))
    → All (λ m. IsBalanced m.1) ms
    → All IsInner (map (λ m. quote m.0 ++ (lit ":" ++ m.1)) ms)
entries-IsInner [] h = tt
entries-IsInner ((k, v) ∷ ms) (h, hs) = (entry-IsInner k v h, entries-IsInner ms hs)

object-IsBalanced :
    (ms : List (Text × Text))
    → All (λ m. IsBalanced m.1) ms
    → IsBalanced (object (lit ",") (lit ":") ms)
unfolding object
object-IsBalanced ms h = braces-IsBalanced _ (
    join-IsInner _
      (entries-IsInner (sort_by by_name ms) (sort_by-All by_name (λ m. IsBalanced m.1) ms h)))

mutual
  unfolding render render_items render_members run step lit

  pub render-IsBalanced : (v : Json) → IsBalanced (render (lit ",") (lit ":") v)
  render-IsBalanced null = λ n. refl
  render-IsBalanced (boolean true) = λ n. refl
  render-IsBalanced (boolean false) = λ n. refl
  render-IsBalanced (number z) = integer-IsBalanced z
  render-IsBalanced (str s) = quote-IsBalanced s
  render-IsBalanced (arr xs) =
      array-IsBalanced (join (lit ",") (render_items (lit ",") (lit ":") xs))
        (join-IsInner (render_items (lit ",") (lit ":") xs) (items-IsInner xs))
  render-IsBalanced (obj m) =
      object-IsBalanced (render_members (lit ",") (lit ":") m) (members-IsBalanced m)

  items-IsInner : (xs : Items) → All IsInner (render_items (lit ",") (lit ":") xs)
  items-IsInner nil = tt
  items-IsInner (cons x xs) = (λ n. render-IsBalanced x (suc n), items-IsInner xs)

  members-IsBalanced :
      (m : Members) → All (λ e. IsBalanced e.1) (render_members (lit ",") (lit ":") m)
  members-IsBalanced end = tt
  members-IsBalanced (member k x m) = (render-IsBalanced x, members-IsBalanced m)
