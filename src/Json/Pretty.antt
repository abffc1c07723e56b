-- ===== src/Json/Pretty.antt =====
-- `json.dumps(value, indent=2)`, which escapes what is not printable ASCII and keeps the order of the
-- keys, as mcp/src/compliance_mcp/evidence_export.py writes the cover of a pack.
use regulatory_compliance_he.Prelude.{
  Text, lit, ℕ, zero, suc, ◌+◌, ◌-◌, ◌/◌, ◌%◌, true, false, ◌&&◌, List, [], ◌∷◌, ◌++◌, join,
  decimal, leb, ltb, nat_eq, if◌then◌else◌, ◌≡◌, refl,
}
use regulatory_compliance_he.Prelude.Int.{ℤ, pos, negsuc}
use regulatory_compliance_he.Json.{
  Json, null, boolean, number, str, arr, obj, Items, nil, cons, Members, end, member,
}

hex_digit : ℕ → ℕ
hex_digit n = if ltb n 10 then b'0' + n else b'a' + (n - 10)

-- `\uXXXX` for a number of sixteen bits.
unit : ℕ → Text
unfolding hex_digit
unit n =
    b'\\'
    ∷ b'u'
    ∷ hex_digit (n / 4096 % 16)
    ∷ hex_digit (n / 256 % 16)
    ∷ hex_digit (n / 16 % 16)
    ∷ hex_digit (n % 16)
    ∷ []

-- One character; beyond sixteen bits it is a pair of surrogates.
ascii_char : ℕ → Text
unfolding unit
ascii_char c =
    if nat_eq c b'"'
    then b'\\' ∷ b'"' ∷ []
    else if nat_eq c b'\\'
    then b'\\' ∷ b'\\' ∷ []
    else if nat_eq c 8
    then lit "\\b"
    else if nat_eq c 9
    then lit "\\t"
    else if nat_eq c 10
    then lit "\\n"
    else if nat_eq c 12
    then lit "\\f"
    else if nat_eq c 13
    then lit "\\r"
    else if leb 32 c && leb c 126
    then c ∷ []
    else if ltb c 0x10000
    then unit c
    else unit (0xd800 + (c - 0x10000) / 0x400 % 0x400) ++ unit (0xdc00 + (c - 0x10000) % 0x400)

ascii_all : Text → Text
unfolding ascii_char
ascii_all [] = []
ascii_all (c ∷ s) = ascii_char c ++ ascii_all s

ascii_quote : Text → Text
unfolding ascii_all
ascii_quote s = b'"' ∷ (ascii_all s ++ (b'"' ∷ []))

spaces : ℕ → Text
spaces zero = []
spaces (suc n) = b' ' ∷ spaces n

-- The start of a line at a depth.
new_line : ℕ → Text
unfolding spaces
new_line level = b'\n' ∷ spaces (level + level)

-- The parts between two brackets, one on each line.
bracket : ℕ → ℕ → ℕ → List Text → Text
unfolding new_line
bracket level open_ close [] = open_ ∷ close ∷ []
bracket level open_ close (p ∷ ps) =
    open_
    ∷ (new_line (suc level)
        ++ (join (b',' ∷ new_line (suc level)) (p ∷ ps) ++ (new_line level ++ (close ∷ []))))

signed : ℤ → Text
signed (pos n) = decimal n
signed (negsuc n) = b'-' ∷ decimal (suc n)

unfoldable mutual
  unfolding ascii_quote bracket signed

  pub pretty : ℕ → Json → Text
  pretty level null = lit "null"
  pretty level (boolean true) = lit "true"
  pretty level (boolean false) = lit "false"
  pretty level (number n) = signed n
  pretty level (str s) = ascii_quote s
  pretty level (arr xs) = bracket level b'[' b']' (pretty_items (suc level) xs)
  pretty level (obj m) = bracket level b'{' b'}' (pretty_members (suc level) m)

  pub pretty_items : ℕ → Items → List Text
  pretty_items level nil = []
  pretty_items level (cons x xs) = pretty level x ∷ pretty_items level xs

  pub pretty_members : ℕ → Members → List Text
  pretty_members level end = []
  pretty_members level (member k v m) =
      (ascii_quote k ++ (lit ": " ++ pretty level v)) ∷ pretty_members level m

pretty_test :
    pretty 0 (
      obj (
        member
          (lit "a")
          (obj (member (lit "b") (str (lit "x")) end))
          (member (lit "c") (arr nil) end)))
    ≡ lit "{\n  \"a\": {\n    \"b\": \"x\"\n  },\n  \"c\": []\n}"
unfolding pretty join lit
pretty_test = refl
