-- ===== src/DraftChecks/Patterns.antt =====
-- The regular expressions of mcp/src/compliance_mcp/draft_checks.py, as matchers over code points.
-- The one choice that they leave open, where a lazy group ends, is the first possible place.
use regulatory_compliance_he.Prelude.{
  Text, lit, ℕ, zero, suc, ◌+◌, ◌-◌, Option, none, some, Bool, true, false, not, ◌&&◌, ◌||◌, List,
  [], ◌∷◌, any, all, take, drop, length, strip, is_space, starts_with, leb, nat_eq, if◌then◌else◌,
  ◌≡◌, refl,
}
use mathlib.Core.List.{reverse}

-- `\d`: the decimal digits of Unicode, which come in runs of ten; here are their zeros.
abbrev pub zeros : List ℕ
zeros =
    0x30 ∷ 0x660 ∷ 0x6f0 ∷ 0x7c0 ∷ 0x966 ∷ 0x9e6 ∷ 0xa66 ∷ 0xae6 ∷ 0xb66 ∷ 0xbe6 ∷ 0xc66 ∷ 0xce6
    ∷ 0xd66 ∷ 0xde6 ∷ 0xe50 ∷ 0xed0 ∷ 0xf20 ∷ 0x1040 ∷ 0x1090 ∷ 0x17e0 ∷ 0x1810 ∷ 0x1946 ∷ 0x19d0
    ∷ 0x1a80 ∷ 0x1a90 ∷ 0x1b50 ∷ 0x1bb0 ∷ 0x1c40 ∷ 0x1c50 ∷ 0xa620 ∷ 0xa8d0 ∷ 0xa900 ∷ 0xa9d0
    ∷ 0xa9f0 ∷ 0xaa50 ∷ 0xabf0 ∷ 0xff10 ∷ 0x104a0 ∷ 0x10d30 ∷ 0x11066 ∷ 0x110f0 ∷ 0x11136 ∷ 0x111d0
    ∷ 0x112f0 ∷ 0x11450 ∷ 0x114d0 ∷ 0x11650 ∷ 0x116c0 ∷ 0x11730 ∷ 0x118e0 ∷ 0x11950 ∷ 0x11c50
    ∷ 0x11d50 ∷ 0x11da0 ∷ 0x16a60 ∷ 0x16ac0 ∷ 0x16b50 ∷ 0x1d7ce ∷ 0x1d7d8 ∷ 0x1d7e2 ∷ 0x1d7ec
    ∷ 0x1d7f6 ∷ 0x1e140 ∷ 0x1e2f0 ∷ 0x1e950 ∷ 0x1fbf0 ∷ []

unfoldable pub is_decimal : ℕ → Bool
unfolding any
is_decimal c = any (λ z. leb z c && leb c (z + 9)) zeros

is_upper_or_digit : ℕ → Bool
is_upper_or_digit c = (leb b'A' c && leb c b'Z') || (leb b'0' c && leb c b'9') || nat_eq c b'-'

is_hex : ℕ → Bool
is_hex c = (leb b'0' c && leb c b'9') || (leb b'a' c && leb c b'f')

-- The longest prefix of characters that pass a test, and the rest.
span : (ℕ → Bool) → Text → Text × Text
span p [] = ([], [])
span p (c ∷ s) = let (run, rest) = span p s in if p c then (c ∷ run, rest) else ([], c ∷ s)

skip_spaces : Text → Text
skip_spaces s = (span is_space s).1

after_char : ℕ → Text → Option Text
after_char c [] = none
after_char c (d ∷ s) = if nat_eq d c then some s else none

-- One or more characters that pass a test.
many : (ℕ → Bool) → Text → Option (Text × Text)
many p s = let (run, rest) = span p s in elim run [ [] ↦ none | c ∷ more ↦ some (c ∷ more, rest) ]

bind {ℓ κ} : {A : Type ℓ} {B : Type κ} → Option A → (A → Option B) → Option B
bind none f = none
bind (some a) f = f a

-- The end of a quoted cell: a quotation mark, white space and a bar.
after_quote : Text → Option Text
after_quote s = bind (after_char b'"' s) (λ t. after_char b'|' (skip_spaces t))

-- `(.+?)"\s*\|`, when the first character of the group is already read.
quoted_from : Text → Text → Option (Text × Text)
quoted_from acc [] = none
quoted_from acc (c ∷ s) =
    let longer = quoted_from (c ∷ acc) s in
    elim (after_quote (c ∷ s)) [
      | some rest ↦ some (reverse acc, rest)
      | none ↦ if nat_eq c 10 then none else longer
    ]

quoted : Text → Option (Text × Text)
quoted [] = none
quoted (c ∷ s) = if nat_eq c 10 then none else quoted_from (c ∷ []) s

-- `_QUOTE_CELL` at one place: the quote, and the text after the match.
quote_cell : Text → Option (Text × Text)
quote_cell s = bind (after_char b'|' s) (λ s₁. bind (many is_decimal (skip_spaces s₁)) (λ m.
    bind (after_char b'|' (skip_spaces m.1)) (λ s₂.
      bind (after_char b'|' ((span (λ c. not (nat_eq c b'|')) s₂).1))
        (λ s₃. bind (after_char b'"' (skip_spaces s₃)) quoted))))

-- `_QUOTE_CELL.findall`: the place is at the start of a line or not, and `skip` characters belong to
-- the last match.
find_quotes : ℕ → Bool → Text → List Text
find_quotes skip line_start [] = []
find_quotes (suc skip) line_start (c ∷ s) = find_quotes skip (nat_eq c 10) s
find_quotes zero line_start (c ∷ s) =
    let next = find_quotes zero (nat_eq c 10) s in
    let after = λ (rest : Text). find_quotes (length s - length rest) (nat_eq c 10) s in
    if line_start
    then elim (quote_cell (c ∷ s)) [ none ↦ next | some (q, rest) ↦ q ∷ after rest ]
    else next

pub quote_cells : Text → List Text
quote_cells body = find_quotes 0 true body

-- `re.sub(r"\s+", " ", text).strip()`; `in_run` says that the last character was white space.
single_spaced : Bool → Text → Text
single_spaced in_run [] = []
single_spaced in_run (c ∷ s) =
    let skipped = single_spaced true s in
    let kept = single_spaced false s in
    if is_space c then if in_run then skipped else b' ' ∷ skipped else c ∷ kept

unfoldable pub normalise : Text → Text
unfolding single_spaced
normalise text = strip (single_spaced false text)

-- `\w`: ASCII here, and `wide` for the letters and digits beyond.
module _ (wide : ℕ → Bool) where
  is_word : ℕ → Bool
  is_word c =
      (leb b'0' c && leb c b'9')
      || (leb b'a' c && leb c b'z')
      || (leb b'A' c && leb c b'Z')
      || nat_eq c b'_'
      || (leb 128 c && wide c)

  ends_word : Text → Bool
  ends_word [] = true
  ends_word (c ∷ s) = not (is_word c)

  -- `_SHA256.findall`, with whether the character before is part of a word.
  find_hashes : ℕ → Bool → Text → List Text
  find_hashes skip in_word [] = []
  find_hashes (suc skip) in_word (c ∷ s) = find_hashes skip (is_word c) s
  find_hashes zero in_word (c ∷ s) =
      let next = find_hashes zero (is_word c) s in
      let after = find_hashes 63 (is_word c) s in
      let found = take 64 (c ∷ s) in
      if not in_word && nat_eq (length found) 64 && all is_hex found && ends_word (drop 64 (c ∷ s))
      then found ∷ after
      else next

  pub hashes : Text → List Text
  hashes body = find_hashes 0 false body

-- `\d{4}-\d{2}-\d{2}` at the start of a text.
date_at : Text → Option (Text × Text)
date_at (a ∷ b ∷ c ∷ d ∷ e ∷ f ∷ g ∷ h ∷ i ∷ j ∷ s) =
    if is_decimal a
      && is_decimal b
      && is_decimal c
      && is_decimal d
      && nat_eq e b'-'
      && is_decimal f
      && is_decimal g
      && nat_eq h b'-'
      && is_decimal i
      && is_decimal j
    then some (a ∷ b ∷ c ∷ d ∷ e ∷ f ∷ g ∷ h ∷ i ∷ j ∷ [], s)
    else none
date_at _ = none

after_text : Text → Text → Option Text
after_text t s = if starts_with s t then some (drop (length t) s) else none

-- `_INDEX_TITLE` at one place: the control, the start and the end.
title_at : Text → Option (Text × Text × Text)
title_at s = bind (after_text (lit "Evidence index ") s) (λ s₁.
    bind (many is_upper_or_digit s₁) (λ m. bind (after_char b' ' m.1) (λ s₂.
      bind (date_at s₂) (λ start.
        bind (after_text (lit "..") start.1)
          (λ s₃. bind (date_at s₃) (λ end. some (m.0, start.0, end.0)))))))

-- `_INDEX_TITLE.search`: the first match.
pub index_title : Text → Option (Text × Text × Text)
index_title [] = none
index_title (c ∷ s) =
    let later = index_title s in elim (title_at (c ∷ s)) [ none ↦ later | some m ↦ some m ]

-- A mapping table with one quote that spans white space, and an index title.
pattern_tests :
    (quote_cells (lit "# T\n| 1 | must | \"keep  records\" | s |\n") ≡ lit "keep  records" ∷ [])
    × (normalise (lit " keep \n records ") ≡ lit "keep records")
    × (index_title (lit "Evidence index AC-1 2024-01-01..2024-03-31")
        ≡ some (lit "AC-1", lit "2024-01-01", lit "2024-03-31"))
unfolding quote_cells normalise index_title lit is_space starts_with strip any find_quotes
    quote_cell bind after_char many span skip_spaces is_decimal quoted quoted_from after_quote
    title_at after_text is_upper_or_digit date_at
pattern_tests = (refl, refl, refl)
