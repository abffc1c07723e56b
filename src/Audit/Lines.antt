-- ===== src/Audit/Lines.antt =====
-- The text of the audit log of mcp/src/compliance_mcp/audit.py: the lines that `write` adds and those
-- that `verify` reads.
use regulatory_compliance_he.Prelude.{
  Text, lit, ◌≡◌, refl, ap, ◌∙◌, Bool, true, false, List, [], ◌∷◌, ◌++◌, map, arith, all, nat_eq,
  if◌then◌else◌,
}
use regulatory_compliance_he.Prelude.Map.{Dict}
use regulatory_compliance_he.Json.{Json, dumps}
use regulatory_compliance_he.Json.OneLine.{has_no_c0, c0-dumps}
use regulatory_compliance_he.Audit.Tail.{prepend}

-- A record as `write` prints it.
unfoldable pub record_text : Dict Json → Text
record_text d = dumps (lit ", ") (lit ": ") d

-- What the file holds after the records: each with a line end.
unfoldable pub file_text : List (Dict Json) → Text
unfolding record_text
file_text [] = []
file_text (d ∷ ds) = record_text d ++ (b'\n' ∷ file_text ds)

-- `for line in fh` on a file that is opened for text: a line ends with LF, CR or both. The test says
-- that a CR came before.
unfoldable pub lines_after : Bool → Text → List Text
lines_after cr [] = []
lines_after cr (c ∷ s) =
    let rest = lines_after false s in
    let rest_cr = lines_after true s in
    if nat_eq c b'\n'
    then (if cr then rest else [] ∷ rest)
    else if nat_eq c b'\r'
    then [] ∷ rest_cr
    else prepend c rest

unfoldable pub text_lines : Text → List Text
unfolding lines_after
text_lines s = lines_after false s

lines_after-append :
    (t s : Text)
    → has_no_c0 t ≡ true
    → lines_after false (t ++ (b'\n' ∷ s)) ≡ t ∷ lines_after false s
unfolding lines_after all
lines_after-append [] s h = refl
lines_after-append (c ∷ t) s h = let ih = lines_after-append t s in ground (arith, h, ih)

-- Whatever the texts in the records, line ends among them, reading the lines of the file gives back
-- the records that were written, one on each line.
pub text_lines-file_text :
    (recs : List (Dict Json)) → text_lines (file_text recs) ≡ map record_text recs
unfolding text_lines file_text record_text all lit
text_lines-file_text [] = refl
text_lines-file_text (d ∷ ds) =
    lines_after-append (record_text d) (file_text ds) (c0-dumps (lit ", ") (lit ": ") refl refl d)
    ∙ ap (λ (ls : List Text). record_text d ∷ ls) (text_lines-file_text ds)
