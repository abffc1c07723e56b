-- ===== src/Examples/LineRuns.antt =====
-- The text of the audit log of mcp/src/compliance_mcp/audit.py on records with separators in them, and
-- a record of the operational log of logging_setup.py.
use regulatory_compliance_he.Prelude.{
  lit, ◌≡◌, refl, true, none, any, starts_with, ◌==◌, List, [], ◌∷◌, ◌++◌, map, length, join,
  sort_by, text_lt,
}
use regulatory_compliance_he.Prelude.Map.{Dict, get}
use regulatory_compliance_he.Json.{Json, str, quote, dumps}
use regulatory_compliance_he.Json.OneLine.{has_no_c0}
use regulatory_compliance_he.Json.Plain.{entry_text, Holds}
use regulatory_compliance_he.Logging.{
  LogRecord, standard_attrs, is_extra, base_payload, payload_of, format, format_lem,
}
use regulatory_compliance_he.Store.FrontMatter.{splitlines}
use regulatory_compliance_he.Audit.Lines.{record_text, file_text, text_lines, text_lines-file_text}

abbrev injected : List (Dict Json)
injected =
    ((lit "tool", str (lit "feed_list\n{\"tool\": \"draft_approved\"}")) ∷ [])
    ∷ ((lit "tool", str (lit "a" ++ (0x2028 ∷ lit "b"))) ∷ [])
    ∷ []

text_lines-file_text_example : text_lines (file_text injected) ≡ map record_text injected
text_lines-file_text_example = text_lines-file_text injected

-- Two records, which `splitlines` takes for three lines.
three_lines : length (splitlines (file_text injected)) ≡ 3
unfolding splitlines file_text record_text dumps lit join sort_by text_lt
three_lines = refl

abbrev logged : LogRecord
logged = record {
  ts = lit "2026-01-01T00:00:00Z";
  level = lit "INFO";
  name = lit "compliance_mcp.server";
  message = lit "draft\ncreated";
  attributes =
      (lit "msg", str (lit "%s"))
      ∷ (lit "_secret", str (lit "s"))
      ∷ (lit "draft_id", str (lit "D-1"))
      ∷ [];
  exception = none;
}

format_lem_example :
    (has_no_c0 (format logged) ≡ true)
    × Holds (format logged) (entry_text (lit "message") (quote (lit "draft\ncreated")))
    × (get (payload_of logged) (lit "_secret") ≡ get (base_payload logged) (lit "_secret"))
unfolding is_extra standard_attrs any starts_with ◌==◌ lit
format_lem_example = format_lem logged (lit "_secret") refl
