-- ===== src/Json/Plain.antt =====
-- `json.dumps` as it is called without `sort_keys` and separators, with `ensure_ascii=False`: the
-- members stand in the order of the dictionary.
use mathlib.Core.List.{append-nil, append_assoc}
use regulatory_compliance_he.Prelude.{
  Text, lit, ◌≡◌, refl, sym, ap, ◌∙◌, some, Memᴰ, ◌==◌, eq_iff, Bool-cases, inl, inr, arith, true,
  false, List, [], ◌∷◌, ◌++◌, all, join, All,
}
use regulatory_compliance_he.Prelude.Map.{Dict, get}
use regulatory_compliance_he.Json.{
  Json, Items, Members, null, boolean, number, str, arr, obj, nil, cons, end, member, quote,
  integer,
}
use regulatory_compliance_he.Json.OneLine.{has_no_c0, c0-append, c0-quote, c0-integer, c0-join}

abbrev pub entry_text : Text → Text → Text
entry_text k v = quote k ++ (lit ": " ++ v)

unfoldable mutual
  pub print : Json → Text
  print null = lit "null"
  print (boolean true) = lit "true"
  print (boolean false) = lit "false"
  print (number n) = integer n
  print (str s) = quote s
  print (arr xs) = lit "[" ++ (join (lit ", ") (print_items xs) ++ lit "]")
  print (obj m) = lit "{" ++ (join (lit ", ") (print_members m) ++ lit "}")

  pub print_items : Items → List Text
  print_items nil = []
  print_items (cons x xs) = print x ∷ print_items xs

  pub print_members : Members → List Text
  print_members end = []
  print_members (member k v m) = entry_text k (print v) ∷ print_members m

pub print_entries : Dict Json → List Text
unfolding print
print_entries [] = []
print_entries ((k, v) ∷ d) = entry_text k (print v) ∷ print_entries d

-- `json.dumps` of a dictionary.
unfoldable pub print_dict : Dict Json → Text
unfolding print_entries
print_dict d = lit "{" ++ (join (lit ", ") (print_entries d) ++ lit "}")

c0_entry : (k v : Text) → has_no_c0 v ≡ true → has_no_c0 (entry_text k v) ≡ true
unfolding all lit
c0_entry k v h = c0-append (quote k) _ (c0-quote k) (c0-append (lit ": ") v refl h)

-- A bracket on each side.
c0_brackets :
    (open_ close : Text) (ps : List Text)
    → has_no_c0 open_ ≡ true
    → has_no_c0 close ≡ true
    → All (λ p. has_no_c0 p ≡ true) ps
    → has_no_c0 (open_ ++ (join (lit ", ") ps ++ close)) ≡ true
unfolding all lit
c0_brackets open_ close ps h e hs =
    c0-append open_ _ h (c0-append (join (lit ", ") ps) close (c0-join (lit ", ") ps refl hs) e)

mutual
  unfolding print print_items print_members all lit

  c0-print : (v : Json) → has_no_c0 (print v) ≡ true
  c0-print null = refl
  c0-print (boolean true) = refl
  c0-print (boolean false) = refl
  c0-print (number z) = c0-integer z
  c0-print (str s) = c0-quote s
  c0-print (arr xs) = c0_brackets (lit "[") (lit "]") (print_items xs) refl refl (c0_items xs)
  c0-print (obj m) = c0_brackets (lit "{") (lit "}") (print_members m) refl refl (c0_members m)

  c0_items : (xs : Items) → All (λ p. has_no_c0 p ≡ true) (print_items xs)
  c0_items nil = tt
  c0_items (cons x xs) = (c0-print x, c0_items xs)

  c0_members : (m : Members) → All (λ p. has_no_c0 p ≡ true) (print_members m)
  c0_members end = tt
  c0_members (member k v m) = (c0_entry k (print v) (c0-print v), c0_members m)

c0_entries : (d : Dict Json) → All (λ p. has_no_c0 p ≡ true) (print_entries d)
unfolding print_entries
c0_entries [] = tt
c0_entries ((k, v) ∷ d) = (c0_entry k (print v) (c0-print v), c0_entries d)

pub c0-print_dict : (d : Dict Json) → has_no_c0 (print_dict d) ≡ true
unfolding print_dict all lit
c0-print_dict d = c0_brackets (lit "{") (lit "}") (print_entries d) refl refl (c0_entries d)

-- A text that has another one in it.
abbrev pub Holds : Text → Text → Type 0
Holds t part = (before : Text) × (after : Text) × (t ≡ before ++ (part ++ after))

join-Holds : (sep part : Text) (ps : List Text) → Memᴰ part ps → Holds (join sep ps) part
unfolding join
join-Holds sep part [] m = absurd (elim m [ ])
join-Holds sep part (p ∷ []) (Memᴰ.head e) = ([], [], sym e ∙ sym (append-nil part))
join-Holds sep part (p ∷ []) (Memᴰ.tail m) = absurd (elim m [ ])
join-Holds sep part (p ∷ q ∷ ps) (Memᴰ.head e) =
    ([], sep ++ join sep (q ∷ ps), ap (λ (x : Text). x ++ (sep ++ join sep (q ∷ ps))) (sym e))
join-Holds sep part (p ∷ q ∷ ps) (Memᴰ.tail m) =
    let (before, after, e) = join-Holds sep part (q ∷ ps) m in
    (
      p ++ (sep ++ before),
      after,
      ap (λ (x : Text). p ++ (sep ++ x)) e
          ∙ ap (λ (x : Text). p ++ x) (sym (append_assoc sep before (part ++ after)))
          ∙ sym (append_assoc p (sep ++ before) (part ++ after)),
    )

get-Mem :
    (d : Dict Json) (k : Text) (v : Json)
    → get d k ≡ some v
    → Memᴰ (entry_text k (print v)) (print_entries d)
unfolding get print_entries
get-Mem [] k v h = absurd (cc h)
get-Mem ((j, w) ∷ d) k v h = elim (Bool-cases (j == k)) [
  | inl e ↦
      let key = (eq_iff j k).0 e in
      let same : w ≡ v = ground (arith, h, e) in Memᴰ.head (cc (key, same))
  | inr e ↦ Memᴰ.tail (get-Mem d k v (ground (arith, h, e)))
]

-- Every value that a look-up finds stands in the text behind its key.
pub print_dict-Holds :
    (d : Dict Json) (k : Text) (v : Json)
    → get d k ≡ some v
    → Holds (print_dict d) (entry_text k (print v))
unfolding print_dict lit
print_dict-Holds d k v h =
    let part = entry_text k (print v) in
    let (before, after, e) = join-Holds (lit ", ") part (print_entries d) (get-Mem d k v h) in
    (
      lit "{" ++ before,
      after ++ lit "}",
      ap (λ (x : Text). lit "{" ++ (x ++ lit "}")) e
          ∙ ap (λ (x : Text). lit "{" ++ x) (append_assoc before (part ++ after) (lit "}"))
          ∙ ap (λ (x : Text). lit "{" ++ (before ++ x)) (append_assoc part after (lit "}")),
    )
