-- ===== src/Json/Lookup.antt =====
-- The text of a dictionary, as `_canonical` of mcp/src/compliance_mcp/audit.py prints it, and the value
-- under each key.
use regulatory_compliance_he.Prelude.{
  Text, lit, ◌≡◌, refl, sym, ap, ◌∙◌, Option, none, some, [], ◌∷◌, map, arith, All,
}
use regulatory_compliance_he.Prelude.Map.{Dict, get}
use regulatory_compliance_he.Prelude.Sorted.{get-in_order}
use regulatory_compliance_he.Json.{Json, render, dumps}
use regulatory_compliance_he.Json.Balanced.{IsBalanced, render-IsBalanced}
use regulatory_compliance_he.Json.Injective.{object_injective}

-- A value as it stands in the text.
abbrev pub compact : Json → Text
compact v = render (lit ",") (lit ":") v

abbrev printed : Dict Json → Dict Text
printed d = map (λ m. (m.0, compact m.1)) d

abbrev pub shown_value : Option Json → Option Text
shown_value none = none
shown_value (some v) = some (compact v)

-- The text of the value under a key.
abbrev pub shown : Dict Json → Text → Option Text
shown d k = shown_value (get d k)

get-printed : (d : Dict Json) (k : Text) → get (printed d) k ≡ shown d k
unfolding get
get-printed [] k = refl
get-printed ((j, v) ∷ d) k = ground (arith, get-printed d k)

printed-IsBalanced : (d : Dict Json) → All (λ m. IsBalanced m.1) (printed d)
printed-IsBalanced [] = tt
printed-IsBalanced ((k, v) ∷ d) = (render-IsBalanced v, printed-IsBalanced d)

-- Dictionaries that print the same text have the same text under every key.
pub dumps-shown :
    (d d' : Dict Json)
    → dumps (lit ",") (lit ":") d ≡ dumps (lit ",") (lit ":") d'
    → (k : Text) → shown d k ≡ shown d' k
unfolding dumps
dumps-shown d d' e k =
    let same =
      object_injective (printed d) (printed d') (printed-IsBalanced d) (printed-IsBalanced d') e in
    sym (get-printed d k)
    ∙ sym (get-in_order (printed d) k)
    ∙ ap (λ (ms : Dict Text). get ms k) same
    ∙ get-in_order (printed d') k
    ∙ get-printed d' k
