-- ===== src/Audit/Cli.antt =====
-- `compliance-audit` of mcp/src/compliance_mcp/audit.py: the exit code of `verify`, the count of the
-- spool, and the records that `tail` shows with the line that it prints for one.
use regulatory_compliance_he.Prelude.{
  Text, lit, decimal, ℕ, zero, suc, ◌-◌, List, [], ◌∷◌, ◌++◌, length, drop, take, Result, ok, err,
  ◌>>=◌, Option, none, some, if◌then◌else◌,
}
use regulatory_compliance_he.Prelude.Int.{ℤ, pos, negsuc}
use regulatory_compliance_he.Prelude.Map.{Dict}
use regulatory_compliance_he.Json.{Json}
use regulatory_compliance_he.Store.FrontMatter.{splitlines}
use regulatory_compliance_he.Audit.Record.{get_text}
use regulatory_compliance_he.Audit.Writer.{AuditError, decode_error, key_error}
use regulatory_compliance_he.Audit.Verifier.{VerifyResult}

unfoldable pub exit_code : VerifyResult → ℕ
exit_code result = if result.ok_ then 0 else 1

-- What `verify` prints.
unfoldable pub verdict_line : VerifyResult → Text
verdict_line result = (if result.ok_ then lit "OK " else lit "FAIL ") ++ result.message

unfoldable pub pending_line : List (Dict Json) → Text
pending_line spool = decimal (length spool) ++ lit " record(s) pending"

-- `lines[-n:]`, which is all of them for 0
unfoldable pub last_lines {ℓ} : {A : Type ℓ} → ℤ → List A → List A
last_lines (pos zero) lines = lines
last_lines (pos (suc n)) lines = drop (length lines - suc n) lines
last_lines (negsuc n) lines = drop (suc n) lines

abbrev parsed : Option (Dict Json) → Result AuditError (Dict Json)
parsed none = err decode_error
parsed (some d) = ok d

-- `json.loads` is a parameter: what a line parses to.
module _ (loads : Text → Option (Dict Json)) where
  unfoldable pub load_line : Text → Result AuditError (Dict Json)
  load_line line = parsed (loads line)

  unfoldable pub load_lines : List Text → Result AuditError (List (Dict Json))
  load_lines [] = ok []
  load_lines (l ∷ ls) = load_line l >>= λ d. load_lines ls >>= λ rest. ok (d ∷ rest)

  -- The records of `tail n`, from the text of the active file; there is none before the first
  -- record. `splitlines` also divides a record at the separators that the JSON printer leaves as they
  -- are.
  unfoldable pub tail_records : ℤ → Option Text → Result AuditError (List (Dict Json))
  tail_records n none = ok []
  tail_records n (some file) = load_lines (last_lines n (splitlines file))

unfoldable pub pad : ℕ → Text → Text
pad zero s = s
pad (suc n) [] = b' ' ∷ pad n []
pad (suc n) (c ∷ s) = c ∷ pad n s

abbrev field_value : Option Text → Result AuditError Text
field_value none = err key_error
field_value (some t) = ok t

-- The line that is printed for a record. The values under these keys are texts in every record that is
-- written.
unfoldable pub summary_line : Dict Json → Result AuditError Text
unfolding pad
summary_line rec = field_value (get_text rec "ts") >>= λ ts.
    field_value (get_text rec "outcome") >>= λ outcome.
    field_value (get_text rec "requester") >>= λ requester.
    field_value (get_text rec "tool") >>= λ tool.
    field_value (get_text rec "result_summary") >>= λ summary. ok (
      ts
      ++ (lit " "
          ++ (pad 6 outcome
              ++ (lit " "
                  ++ (pad 28 requester
                      ++ (lit " " ++ (pad 24 tool ++ (lit " " ++ take 80 summary))))))))
