-- ===== src/Json.antt =====
-- JSON values and `json.dumps` with `sort_keys=True, ensure_ascii=False`, as `_canonical` of
-- mcp/src/compliance_mcp/audit.py calls it. A record of the audit log is a dictionary of such values.
pub mod Pretty
pub mod Scanner
pub mod Balanced
pub mod Quoting
pub mod Injective
pub mod Lookup
pub mod OneLine
pub mod Plain
use regulatory_compliance_he.Prelude.{
  Text, lit, decimal, ℕ, suc, ◌+◌, ◌-◌, ◌/◌, ◌%◌, Bool, true, false, List, [], ◌∷◌, ◌++◌, map, join,
  sort_by, ltb, nat_eq, text_le, text_lt, if◌then◌else◌, ◌≡◌, refl,
}
use regulatory_compliance_he.Prelude.Int.{ℤ, pos, negsuc}
use regulatory_compliance_he.Prelude.Map.{Dict}

mutual
  pub data Json : Type 0 where
    null : Json
    boolean : Bool → Json
    number : ℤ → Json
    str : Text → Json
    arr : Items → Json
    obj : Members → Json

  pub data Items : Type 0 where
    nil : Items
    cons : Json → Items → Items

  pub data Members : Type 0 where
    end : Members
    member : Text → Json → Members → Members

-- A list of texts as a JSON array.
unfoldable pub texts : List Text → Items
texts [] = nil
texts (t ∷ ts) = cons (str t) (texts ts)

pub hex_digit : ℕ → ℕ
hex_digit n = if ltb n 10 then b'0' + n else b'a' + (n - 10)

-- One character inside a JSON string.
pub escape : ℕ → Text
unfolding hex_digit
escape c =
    if nat_eq c b'"'
    then b'\\' ∷ b'"' ∷ []
    else if nat_eq c b'\\'
    then b'\\' ∷ b'\\' ∷ []
    else if nat_eq c 8
    then lit "\\b"
    else if nat_eq c 9
    then lit "\\t"
    else if nat_eq c 10
    then lit "\\n"
    else if nat_eq c 12
    then lit "\\f"
    else if nat_eq c 13
    then lit "\\r"
    else if ltb c 32
    then lit "\\u00" ++ (hex_digit (c / 16) ∷ hex_digit (c % 16) ∷ [])
    else c ∷ []

pub escape_all : Text → Text
unfolding escape
escape_all [] = []
escape_all (c ∷ s) = escape c ++ escape_all s

pub quote : Text → Text
unfolding escape_all
quote s = b'"' ∷ (escape_all s ++ (b'"' ∷ []))

pub integer : ℤ → Text
integer (pos n) = decimal n
integer (negsuc n) = b'-' ∷ decimal (suc n)

abbrev pub by_name : Text × Text → Text × Text → Bool
by_name a b = text_le a.0 b.0

-- The members, with their values printed, as an object whose keys are in order.
pub object : Text → Text → List (Text × Text) → Text
unfolding quote
object comma colon members =
    lit "{"
    ++ (join comma (map (λ m. quote m.0 ++ (colon ++ m.1)) (sort_by by_name members)) ++ lit "}")

unfoldable mutual
  unfolding quote integer object

  pub render : Text → Text → Json → Text
  render comma colon null = lit "null"
  render comma colon (boolean true) = lit "true"
  render comma colon (boolean false) = lit "false"
  render comma colon (number n) = integer n
  render comma colon (str s) = quote s
  render comma colon (arr xs) = lit "[" ++ (join comma (render_items comma colon xs) ++ lit "]")
  render comma colon (obj m) = object comma colon (render_members comma colon m)

  pub render_items : Text → Text → Items → List Text
  render_items comma colon nil = []
  render_items comma colon (cons x xs) = render comma colon x ∷ render_items comma colon xs

  pub render_members : Text → Text → Members → List (Text × Text)
  render_members comma colon end = []
  render_members comma colon (member k x m) =
      (k, render comma colon x) ∷ render_members comma colon m

-- `json.dumps` of a dictionary.
unfoldable pub dumps : Text → Text → Dict Json → Text
unfolding object render
dumps comma colon d = object comma colon (map (λ m. (m.0, render comma colon m.1)) d)

dumps_example :
    dumps (lit ",") (lit ":") (
      (lit "b", arr (cons (number (negsuc 1)) (cons null nil))) ∷ (lit "a", str (lit "x\"\n")) ∷ [])
    ≡ lit "{\"a\":\"x\\\"\\n\",\"b\":[-2,null]}"
unfolding dumps lit join sort_by decimal text_lt
dumps_example = refl
