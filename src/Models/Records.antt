-- ===== src/Models/Records.antt =====
-- The systems of record in mcp/src/compliance_mcp/models.py. A date is its text, YYYY-MM-DD.
use regulatory_compliance_he.Prelude.{Text, List, lit}
use regulatory_compliance_he.Prelude.Int.{ℤ}

pub data PolicyStatus : Type 0 where
  approved draft retired : PolicyStatus

pub record PolicySection : Type 0 where
  pub heading : Text
  pub text : Text

pub record Policy : Type 0 where
  pub policy_id : Text
  pub version : Text
  pub effective_date : Text
  pub status : PolicyStatus
  pub title : Text
  pub owner : Text
  pub regulations : List Text
  pub controls : List Text
  pub source : Text
  pub sha256 : Text
  pub sections : List PolicySection

pub record PolicyHit : Type 0 where
  pub policy_id : Text
  pub version : Text
  pub effective_date : Text
  pub title : Text
  pub heading : Text
  pub text : Text
  pub citation : Text

pub record PolicySummary : Type 0 where
  pub policy_id : Text
  pub version : Text
  pub effective_date : Text
  pub title : Text
  pub owner : Text
  pub regulations : List Text
  pub controls : List Text

pub data Frequency : Type 0 where
  monthly quarterly annual unset : Frequency

unfoldable pub frequency_value : Frequency → Text
frequency_value monthly = lit "monthly"
frequency_value quarterly = lit "quarterly"
frequency_value annual = lit "annual"
frequency_value unset = lit ""

pub record Control : Type 0 where
  pub control_id : Text
  pub name : Text
  pub description : Text
  pub owner : Text
  pub test_frequency : Frequency
  pub policies : List Text
  pub regulations : List Text
  pub evidence : List Text

pub data TestOutcome : Type 0 where
  pass fail partial not_tested : TestOutcome

unfoldable pub outcome_value : TestOutcome → Text
outcome_value pass = lit "pass"
outcome_value fail = lit "fail"
outcome_value partial = lit "partial"
outcome_value not_tested = lit "not-tested"

pub record TestResult : Type 0 where
  pub test_id : Text
  pub control_id : Text
  pub tested_on : Text
  pub tester : Text
  pub result : TestOutcome
  pub notes : Text

pub data TicketType : Type 0 where
  change incident task : TicketType

pub record Ticket : Type 0 where
  pub ticket_id : Text
  pub created : Text
  pub status : Text
  pub type : TicketType
  pub title : Text
  pub summary : Text
  pub controls : List Text
  pub policies : List Text

pub record Release : Type 0 where
  pub release_id : Text
  pub source : Text
  pub published : Text
  pub title : Text
  pub url : Text
  pub text : Text

pub record ReleaseSummary : Type 0 where
  pub release_id : Text
  pub source : Text
  pub published : Text
  pub title : Text
  pub url : Text

pub data AttestationStatus : Type 0 where
  open_ complete overdue : AttestationStatus

pub record Attestation : Type 0 where
  pub attestation_id : Text
  pub type : Text
  pub owner : Text
  pub manager : Text
  pub due : Text
  pub status : AttestationStatus

pub record AttestationDue : Type 0 where
  pub attestation : Attestation
  pub days_remaining : ℤ
