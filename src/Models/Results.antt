-- ===== src/Models/Results.antt =====
-- The tool results of mcp/src/compliance_mcp/models.py: one constructor for each result class, with
-- the summary of its base class first. The fields with a constant value, `ok` and `instruction`, are
-- left out.
use regulatory_compliance_he.Prelude.{Text, List, Option, lit}
use regulatory_compliance_he.Models.Records.{
  Policy, PolicyHit, PolicySummary, Control, TestResult, Ticket, Release, ReleaseSummary,
  AttestationDue,
}
use regulatory_compliance_he.Models.Drafts.{Draft, DraftStatus, DraftSummary}

pub data ErrorCode : Type 0 where
  access_denied rate_limited invalid_input draft_rejected not_found internal_error : ErrorCode

unfoldable pub code_value : ErrorCode → Text
code_value access_denied = lit "access_denied"
code_value rate_limited = lit "rate_limited"
code_value invalid_input = lit "invalid_input"
code_value draft_rejected = lit "draft_rejected"
code_value not_found = lit "not_found"
code_value internal_error = lit "internal_error"

pub record ToolError : Type 0 where
  pub error : ErrorCode
  pub detail : Text

pub record PolicyVersionRef : Type 0 where
  pub policy_id : Text
  pub version : Text
  pub effective_date : Text
  pub title : Text
  pub source : Text
  pub sha256 : Text

pub record EvidenceManifest : Type 0 where
  pub control : Control
  pub period_start : Text
  pub period_end : Text
  pub policy_versions : List PolicyVersionRef
  pub test_results : List TestResult
  pub change_tickets : List Ticket
  pub gaps : List Text
  pub manifest_sha256 : Text

pub data ToolResult : Type 0 where
  policy_lookup_result : Text → List PolicyHit → ToolResult
  policy_get_result : Text → Option Policy → ToolResult
  policy_list_result : Text → List PolicySummary → ToolResult
  control_lookup_result : Text → List Control → ToolResult
  control_test_results_result : Text → List TestResult → ToolResult
  regulatory_releases_result : Text → List ReleaseSummary → ToolResult
  regulatory_release_get_result : Text → Option Release → ToolResult
  ticket_search_result : Text → List Ticket → ToolResult
  attestations_due_result : Text → List AttestationDue → ToolResult
  evidence_bundle_result : Text → EvidenceManifest → ToolResult
  draft_create_result : Text → Text → DraftStatus → ToolResult
  draft_list_result : Text → List DraftSummary → ToolResult
  draft_get_result : Text → Option Draft → ToolResult

-- `result.summary`
unfoldable pub summary : ToolResult → Text
summary (policy_lookup_result s _) = s
summary (policy_get_result s _) = s
summary (policy_list_result s _) = s
summary (control_lookup_result s _) = s
summary (control_test_results_result s _) = s
summary (regulatory_releases_result s _) = s
summary (regulatory_release_get_result s _) = s
summary (ticket_search_result s _) = s
summary (attestations_due_result s _) = s
summary (evidence_bundle_result s _) = s
summary (draft_create_result s _ _) = s
summary (draft_list_result s _) = s
summary (draft_get_result s _) = s
