-- ===== src/Store/FrontMatter.antt =====
-- `PolicyRepository._parse` of mcp/src/compliance_mcp/store.py: the front matter of a policy file and
-- the sections of its body. SHA-256 is a parameter.
use regulatory_compliance_he.Prelude.{
  Text, lit, ℕ, Option, none, some, Bool, not, ◌||◌, ◌&&◌, List, [], ◌∷◌, ◌++◌, map, keep, any,
  drop, strip, is_blank, starts_with, join, leb, nat_eq, ◌==◌, Result, ok, err, if◌then◌else◌,
  ◌>>=◌,
}
use mathlib.Core.List.{reverse}
use regulatory_compliance_he.Prelude.Map.{Dict, get, put}
use regulatory_compliance_he.Models.{PolicyStatus, PolicySection, Policy}
use regulatory_compliance_he.Store.Dates.{parse_iso_date}

-- A missing key, and a value that the code or the model refuses.
pub data LoadError : Type 0 where
  key_error value_error : LoadError

-- The line boundaries of `str.splitlines`.
unfoldable pub is_line_end : ℕ → Bool
is_line_end c =
    (leb 10 c && leb c 13)
    || (leb 28 c && leb c 30)
    || nat_eq c 0x85
    || nat_eq c 0x2028
    || nat_eq c 0x2029

-- The line that `acc` ends in reverse, and the lines after it; a last line may lack its end.
unfoldable pub lines_from : Text → Text → List Text
unfolding is_line_end
lines_from [] [] = []
lines_from [] (a ∷ acc) = reverse (a ∷ acc) ∷ []
lines_from (c ∷ []) acc = if is_line_end c then reverse acc ∷ [] else reverse (c ∷ acc) ∷ []
lines_from (c ∷ d ∷ s) acc =
    let crlf = lines_from s [] in
    let split = lines_from (d ∷ s) [] in
    let longer = lines_from (d ∷ s) (c ∷ acc) in
    if nat_eq c 13 && nat_eq d 10
    then reverse acc ∷ crlf
    else if is_line_end c
    then reverse acc ∷ split
    else longer

-- `s.splitlines()`
unfoldable pub splitlines : Text → List Text
unfolding lines_from
splitlines s = lines_from s []

-- `s.split(",")` for one separating character
split_from : ℕ → Text → Text → List Text
split_from sep [] acc = reverse acc ∷ []
split_from sep (c ∷ s) acc =
    let fresh = split_from sep s [] in
    let longer = split_from sep s (c ∷ acc) in if nat_eq c sep then reverse acc ∷ fresh else longer

pub split_at : ℕ → Text → List Text
split_at sep s = split_from sep s []

-- `line.partition(":")`, without the separator
partition_from : ℕ → Text → Text → Text × Text
partition_from sep [] acc = (reverse acc, [])
partition_from sep (c ∷ s) acc =
    let rest = partition_from sep s (c ∷ acc) in if nat_eq c sep then (reverse acc, s) else rest

pub partition : ℕ → Text → Text × Text
partition sep s = partition_from sep s []

-- The text before the first separator and the text after it.
cut_from : Text → ℕ → Text → Text → Option (Text × Text)
cut_from sep width [] acc = none
cut_from sep width (c ∷ s) acc =
    let later = cut_from sep width s (c ∷ acc) in
    if starts_with (c ∷ s) sep then some (reverse acc, drop width (c ∷ s)) else later

-- `_FRONT_MATTER.match`: the opening line, then the shortest header.
pub match_front_matter : Text → Option (Text × Text)
match_front_matter text =
    if starts_with text (lit "---\n") then cut_from (lit "\n---\n") 5 (drop 4 text) [] else none

-- The keys and values of the header; a later line takes over a key.
meta_from : Dict Text → List Text → Dict Text
meta_from meta [] = meta
meta_from meta (line ∷ lines) =
    let (k, v) = partition b':' line in meta_from (put meta (strip k) (strip v)) lines

pub meta_of : Text → Dict Text
meta_of header = meta_from [] (splitlines header)

field : Dict Text → Text → Result LoadError Text
field meta k = elim (get meta k) [ none ↦ err key_error | some v ↦ ok v ]

field_or : Dict Text → Text → Text → Text
field_or meta k default = elim (get meta k) [ none ↦ default | some v ↦ v ]

-- `PolicyStatus(...)`
status_of : Text → Result LoadError PolicyStatus
status_of t =
    if t == lit "approved"
    then ok PolicyStatus.approved
    else if t == lit "draft"
    then ok PolicyStatus.draft
    else if t == lit "retired"
    then ok PolicyStatus.retired
    else err value_error

-- `tuple(s.strip() for s in text.split(",") if s.strip())`
pub comma_list : Text → List Text
comma_list text = keep (λ s. not (is_blank s)) (map strip (split_at b',' text))

-- `_split_sections`: the sections so far, the heading and the lines since.
flush : List PolicySection → Text → List Text → List PolicySection
flush sections heading lines =
    if any (λ l. not (is_blank l)) lines
    then sections ++ record { heading = heading; text = strip (join (lit "\n") lines) } ∷ []
    else sections

sections_from : List PolicySection → Text → List Text → List Text → List PolicySection
sections_from sections heading lines [] = flush sections heading lines
sections_from sections heading lines (line ∷ rest) =
    let next = sections_from (flush sections heading lines) (strip (drop 3 line)) [] rest in
    let same = sections_from sections heading (lines ++ line ∷ []) rest in
    if starts_with line (lit "## ") then next else same

pub split_sections : Text → List PolicySection
split_sections body = sections_from [] (lit "Preamble") [] (splitlines body)

-- The validator of `Policy.effective_date`.
real_date : Text → Result LoadError Text
real_date t = elim (parse_iso_date t) [ none ↦ err value_error | some d ↦ ok t ]

-- `_parse`, for the file `source` with the content `text`.
pub parse : (Text → Text) → Text → Text → Result LoadError Policy
parse sha256 source text = elim (match_front_matter text) [
  | none ↦ err value_error
  | some (header, body) ↦
      let meta = meta_of header in
      field meta (lit "policy_id") >>= λ policy_id. field meta (lit "version") >>= λ version.
      field meta (lit "effective_date") >>= λ effective_date.
      status_of (field_or meta (lit "status") (lit "approved")) >>= λ status.
      field meta (lit "title") >>= λ title. real_date effective_date >>= λ day. ok (record {
        policy_id = policy_id;
        version = version;
        effective_date = day;
        status = status;
        title = title;
        owner = field_or meta (lit "owner") [];
        regulations = comma_list (field_or meta (lit "regulations") []);
        controls = comma_list (field_or meta (lit "controls") []);
        source = source;
        sha256 = sha256 text;
        sections = split_sections body;
      })
]
