-- ===== src/Feed/Xml.antt =====
-- The XML trees of mcp/src/compliance_mcp/feed_fetcher.py, as `xml.etree` gives them, and the text of a
-- node. What `html.unescape` makes of a text is a parameter.
use regulatory_compliance_he.Prelude.{
  Text, lit, ℕ, Option, none, some, List, [], ◌∷◌, ◌++◌, strip, nat_eq, ◌==◌, if◌then◌else◌, ◌≡◌,
  refl, length, ◌-◌, zero, suc,
}
use regulatory_compliance_he.Prelude.Map.{Dict}

mutual
  -- A tag, the attributes, the text before the first child, and the children.
  pub data Element : Type 0 where
    element : Text → Dict Text → Option Text → Children → Element

  -- A child, and the text behind it.
  pub data Children : Type 0 where
    nil : Children
    child : Element → Option Text → Children → Children

abbrev pub tag_of : Element → Text
tag_of (element tag attributes text children) = tag

abbrev pub attributes_of : Element → Dict Text
attributes_of (element tag attributes text children) = attributes

abbrev pub children_of : Element → Children
children_of (element tag attributes text children) = children

abbrev or_empty : Option Text → Text
or_empty none = []
or_empty (some t) = t

unfoldable mutual
  -- `"".join(node.itertext())`
  pub itertext : Element → Text
  itertext (element tag attributes text children) = or_empty text ++ itertext_all children

  pub itertext_all : Children → Text
  itertext_all nil = []
  itertext_all (child e tail children) = itertext e ++ (or_empty tail ++ itertext_all children)

-- `node.find(tag)`: the first child with the tag.
unfoldable pub find_child : Text → Children → Option Element
find_child tag nil = none
find_child tag (child e tail children) = if tag_of e == tag then some e else find_child tag children

unfoldable pub find : Element → Text → Option Element
find node tag = find_child tag (children_of node)

unfoldable mutual
  -- `root.findall(".//tag")`: the nodes below, in the order of the document.
  pub find_all : Text → Element → List Element
  find_all tag (element t attributes text children) = find_below tag children

  pub find_below : Text → Children → List Element
  find_below tag nil = []
  find_below tag (child e tail children) =
      let deep = find_all tag e in
      let rest = find_below tag children in
      if tag_of e == tag then e ∷ (deep ++ rest) else deep ++ rest

-- Whether a `>` stands in the text, and what follows the first.
unfoldable pub after_bracket : Text → Option Text
after_bracket [] = none
after_bracket (c ∷ s) = if nat_eq c b'>' then some s else after_bracket s

-- The text after a match of `<[^>]+>` whose `<` is read.
unfoldable pub after_tag : Text → Option Text
after_tag [] = none
after_tag (c ∷ s) = if nat_eq c b'>' then none else after_bracket s

-- `_TAGS.sub(" ", text)`; `skip` characters belong to the last match.
unfoldable pub without_tags : ℕ → Text → Text
without_tags skip [] = []
without_tags (suc skip) (c ∷ s) = without_tags skip s
without_tags zero (c ∷ s) =
    let next = without_tags zero s in
    let after = λ (rest : Text). without_tags (length s - length rest) s in
    if nat_eq c b'<'
    then elim (after_tag s) [ none ↦ c ∷ next | some rest ↦ b' ' ∷ after rest ]
    else c ∷ next

unfoldable pub raw_text : Element → Text
raw_text (element tag attributes none children) = itertext_all children
raw_text (element tag attributes (some t) children) = t

-- `_text_of`
unfoldable pub text_of : (Text → Text) → Option Element → Text
text_of unescape none = []
text_of unescape (some node) = strip (unescape (without_tags 0 (raw_text node)))

without_tags_test : without_tags 0 (lit "a<b>c<>d<e") ≡ lit "a c<>d<e"
unfolding without_tags after_tag after_bracket lit
without_tags_test = refl
