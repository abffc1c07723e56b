-- ===== src/Service/Failure.antt =====
-- The exceptions that a tool of mcp/src/compliance_mcp/service.py may raise, and what the wrapper
-- makes of each.
use regulatory_compliance_he.Prelude.{Text, lit, ◌++◌}
use regulatory_compliance_he.Models.{
  ToolError, access_denied, rate_limited, invalid_input, draft_rejected, not_found, internal_error,
}

-- `other` stands for every exception without a clause of its own.
pub data Failure : Type 0 where
  denied : Text → Failure
  limited : Text → Failure
  rejected : Text → Failure
  invalid : Text → Failure
  validation : Failure
  missing : Text → Failure
  other : Failure

abbrev pub validation_message : Text
validation_message = lit "argument failed validation"

-- The outcome of the record.
unfoldable pub outcome_of : Failure → Text
outcome_of (denied m) = lit "denied"
outcome_of (limited m) = lit "denied"
outcome_of _ = lit "error"

-- The summary of the record.
unfoldable pub record_summary : Failure → Text
record_summary (denied m) = m
record_summary (limited m) = m
record_summary (rejected m) = lit "draft_rejected: " ++ m
record_summary (invalid m) = lit "invalid_input: " ++ m
record_summary validation = lit "invalid_input: " ++ validation_message
record_summary (missing m) = lit "not_found: " ++ m
record_summary other = lit "internal_error"

-- What the model is told.
unfoldable pub tool_error : Failure → ToolError
tool_error (denied m) = record { error = access_denied; detail = m }
tool_error (limited m) = record { error = rate_limited; detail = m }
tool_error (rejected m) = record { error = draft_rejected; detail = m }
tool_error (invalid m) = record { error = invalid_input; detail = m }
tool_error validation = record { error = invalid_input; detail = validation_message }
tool_error (missing m) = record { error = not_found; detail = m }
tool_error other = record {
  error = internal_error;
  detail = lit "the tool failed; the error has been logged";
}
