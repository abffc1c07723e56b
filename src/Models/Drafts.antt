-- ===== src/Models/Drafts.antt =====
-- The drafts of mcp/src/compliance_mcp/models.py, the only thing that the agent writes.
use regulatory_compliance_he.Prelude.{Text, List, Option, Bool, true, false, lit}

pub data DraftKind : Type 0 where
  policy_mapping evidence_pack_index control_finding_note attestation_escalation : DraftKind

unfoldable pub kind_value : DraftKind → Text
kind_value policy_mapping = lit "policy_mapping"
kind_value evidence_pack_index = lit "evidence_pack_index"
kind_value control_finding_note = lit "control_finding_note"
kind_value attestation_escalation = lit "attestation_escalation"

pub data DraftStatus : Type 0 where
  pending approved rejected : DraftStatus

unfoldable pub status_value : DraftStatus → Text
status_value pending = lit "pending"
status_value approved = lit "approved"
status_value rejected = lit "rejected"

-- `a is b` on statuses
abbrev pub same_status : DraftStatus → DraftStatus → Bool
same_status pending pending = true
same_status approved approved = true
same_status rejected rejected = true
same_status _ _ = false

pub record Decision : Type 0 where
  pub by : Text
  pub note : Text
  pub at : Text

pub record Draft : Type 0 where
  pub draft_id : Text
  pub kind : DraftKind
  pub title : Text
  pub body : Text
  pub requester : Text
  pub session_id : Text
  pub related_ids : List Text
  pub created : Text
  pub status : DraftStatus
  pub content_sha256 : Text
  pub decision : Option Decision

pub record DraftSummary : Type 0 where
  pub draft_id : Text
  pub kind : DraftKind
  pub title : Text
  pub requester : Text
  pub created : Text
  pub status : DraftStatus
  pub decision : Option Decision
