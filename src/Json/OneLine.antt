-- ===== src/Json/OneLine.antt =====
-- The characters of the texts that Json.antt prints for the lines of a log.
use regulatory_compliance_he.Prelude.{
  Text, lit, decimal, ℕ, suc, ◌/◌, ◌%◌, ◌≡◌, refl, Bool, true, false, ◌&&◌, List, [], ◌∷◌, ◌++◌,
  map, arith, all, join, sort_by, leb, All, IsDigit, decimal-All,
}
use regulatory_compliance_he.Prelude.Sorting.{sort_by-All}
use regulatory_compliance_he.Prelude.Int.{ℤ, pos, negsuc}
use regulatory_compliance_he.Prelude.Map.{Dict}
use regulatory_compliance_he.Json.{
  Json, Items, Members, null, boolean, number, str, arr, obj, nil, cons, end, member, hex_digit,
  escape, escape_all, quote, integer, by_name, object, render, render_items, render_members, dumps,
}

-- No character below U+0020, among them LF and CR. DEL, U+0080 to U+009F and the separators U+2028 and
-- U+2029 may stand in the text.
abbrev pub has_no_c0 : Text → Bool
has_no_c0 t = all (leb 32) t

pub all-append : (p : ℕ → Bool) (s t : Text) → all p (s ++ t) ≡ (all p s && all p t)
unfolding all
all-append p [] t = refl
all-append p (c ∷ s) t = ground (arith, all-append p s t)

pub c0-append : (s t : Text) → has_no_c0 s ≡ true → has_no_c0 t ≡ true → has_no_c0 (s ++ t) ≡ true
c0-append s t h e = ground (arith, all-append (leb 32) s t)

hex_digit_lem : (n : ℕ) → leb 32 (hex_digit n) ≡ true
unfolding hex_digit
hex_digit_lem n = ground arith

c0-escape : (c : ℕ) → has_no_c0 (escape c) ≡ true
unfolding all escape lit
c0-escape c = ground (arith, hex_digit_lem (c / 16), hex_digit_lem (c % 16))

c0-escape_all : (s : Text) → has_no_c0 (escape_all s) ≡ true
unfolding all escape_all
c0-escape_all [] = refl
c0-escape_all (c ∷ s) = c0-append (escape c) (escape_all s) (c0-escape c) (c0-escape_all s)

pub c0-quote : (s : Text) → has_no_c0 (quote s) ≡ true
unfolding all quote
c0-quote s = c0-append (escape_all s) (b'"' ∷ []) (c0-escape_all s) refl

c0_digits : (s : Text) → All IsDigit s → has_no_c0 s ≡ true
unfolding all
c0_digits [] h = refl
c0_digits (c ∷ s) ((low, high), hs) = ground (arith, low, c0_digits s hs)

pub c0-integer : (z : ℤ) → has_no_c0 (integer z) ≡ true
unfolding all integer
c0-integer (pos m) = c0_digits (decimal m) (decimal-All m)
c0-integer (negsuc m) = c0_digits (decimal (suc m)) (decimal-All (suc m))

pub c0-join :
    (sep : Text) (ps : List Text)
    → has_no_c0 sep ≡ true
    → All (λ p. has_no_c0 p ≡ true) ps
    → has_no_c0 (join sep ps) ≡ true
unfolding join all
c0-join sep [] e h = refl
c0-join sep (p ∷ []) e (h, hs) = h
c0-join sep (p ∷ q ∷ ps) e (h, hs) = c0-append p _ h (c0-append sep _ e (c0-join sep (q ∷ ps) e hs))

module _ (comma colon : Text) (comma_ok : has_no_c0 comma ≡ true)
    (colon_ok : has_no_c0 colon ≡ true) where
  c0_entries :
      (ms : List (Text × Text))
      → All (λ m. has_no_c0 m.1 ≡ true) ms
      → All (λ p. has_no_c0 p ≡ true) (map (λ m. quote m.0 ++ (colon ++ m.1)) ms)
  c0_entries [] h = tt
  c0_entries ((k, v) ∷ ms) (h, hs) =
      (c0-append (quote k) _ (c0-quote k) (c0-append colon v colon_ok h), c0_entries ms hs)

  c0-object :
      (ms : List (Text × Text))
      → All (λ m. has_no_c0 m.1 ≡ true) ms
      → has_no_c0 (object comma colon ms) ≡ true
  unfolding object all lit
  c0-object ms h =
      c0-append (join comma (map (λ m. quote m.0 ++ (colon ++ m.1)) (sort_by by_name ms)))
        (b'}' ∷ [])
        (c0-join comma _ comma_ok
          (c0_entries (sort_by by_name ms) (sort_by-All by_name (λ m. has_no_c0 m.1 ≡ true) ms h)))
        refl

  mutual
    unfolding render render_items render_members all lit

    c0-render : (v : Json) → has_no_c0 (render comma colon v) ≡ true
    c0-render null = refl
    c0-render (boolean true) = refl
    c0-render (boolean false) = refl
    c0-render (number z) = c0-integer z
    c0-render (str s) = c0-quote s
    c0-render (arr xs) =
        c0-append (join comma (render_items comma colon xs)) (b']' ∷ [])
          (c0-join comma (render_items comma colon xs) comma_ok (c0_items xs)) refl
    c0-render (obj m) = c0-object (render_members comma colon m) (c0_members m)

    c0_items : (xs : Items) → All (λ p. has_no_c0 p ≡ true) (render_items comma colon xs)
    c0_items nil = tt
    c0_items (cons x xs) = (c0-render x, c0_items xs)

    c0_members : (m : Members) → All (λ e. has_no_c0 e.1 ≡ true) (render_members comma colon m)
    c0_members end = tt
    c0_members (member k x m) = (c0-render x, c0_members m)

  c0_values :
      (d : Dict Json)
      → All (λ (m : Text × Text). has_no_c0 m.1 ≡ true) (map (λ m. (m.0, render comma colon m.1)) d)
  c0_values [] = tt
  c0_values ((k, v) ∷ d) = (c0-render v, c0_values d)

  pub c0-dumps : (d : Dict Json) → has_no_c0 (dumps comma colon d) ≡ true
  unfolding dumps
  c0-dumps d = c0-object (map (λ m. (m.0, render comma colon m.1)) d) (c0_values d)
