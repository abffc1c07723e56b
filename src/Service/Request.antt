-- ===== src/Service/Request.antt =====
-- The calls of the tools of mcp/src/compliance_mcp/service.py as values, what the service is built
-- with, and how an answer is worded.
use regulatory_compliance_he.Prelude.{
  Text, lit, decimal, ℕ, max, min, Option, none, some, Bool, true, false, List, [], ◌∷◌, ◌++◌,
  find_first, ◌==◌,
}
use regulatory_compliance_he.Prelude.Int.{ℤ, pos, negsuc}
use regulatory_compliance_he.Prelude.Map.{Dict}
use regulatory_compliance_he.Models.{
  Policy, PolicySummary, Control, Release, ReleaseSummary, Attestation, DraftKind, DraftStatus,
}
use regulatory_compliance_he.Drafts.{Stamp}
use regulatory_compliance_he.Store.Dates.{Date}
use regulatory_compliance_he.Store.Policies.{current, version_as_of}
use regulatory_compliance_he.Service.Evidence.{Systems}

-- The keyword arguments of each tool.
pub data Request : Type 0 where
  policy_lookup : Text → ℤ → Request
  policy_get : Text → Option Text → Request
  policy_list : Request
  control_lookup : Text → Text → Request
  control_test_results : Text → Option Text → Option Text → Request
  regulatory_releases : Text → Text → Request
  regulatory_release_get : Text → Request
  ticket_search : Text → Text → Option Text → Option Text → Request
  attestations_due : ℤ → Option Text → Request
  evidence_bundle : Text → Text → Text → Request
  draft_create : DraftKind → Text → Text → List Text → Request
  draft_list : DraftStatus → Request
  draft_get : Text → Request

-- What the service is built with.
pub record Config : Type 0 where
  pub systems : Systems
  pub releases : Dict Release
  pub attestations : List Attestation
  pub allow_clock_override : Bool

-- What a body reads from outside: the day, as a text and as a date, and what a new draft takes.
pub record Today : Type 0 where
  pub text : Text
  pub date : Date
  pub stamp : Stamp

-- `max(1, min(limit, 20))`
unfoldable pub clamp : ℤ → ℕ
clamp (pos n) = max 1 (min n 20)
clamp (negsuc n) = 1

abbrev pub found_word : Bool → Text
found_word true = lit "found"
found_word false = lit "not found"

abbrev pub is_some {ℓ} : {A : Type ℓ} → Option A → Bool
is_some none = false
is_some (some a) = true

abbrev pub or_empty : Option Text → Text
or_empty none = []
or_empty (some t) = t

abbrev pub policy_summary : Policy → PolicySummary
policy_summary d = record {
  policy_id = d.policy_id;
  version = d.version;
  effective_date = d.effective_date;
  title = d.title;
  owner = d.owner;
  regulations = d.regulations;
  controls = d.controls;
}

abbrev pub release_summary : Release → ReleaseSummary
release_summary r = record {
  release_id = r.release_id;
  source = r.source;
  published = r.published;
  title = r.title;
  url = r.url;
}

pub counted : ℕ → Text → Text
counted n what = decimal n ++ what

-- What `policy_get` answers with.
unfoldable pub policy_for : List Policy → Text → Option Text → Option Policy
policy_for docs policy_id none = find_first (λ d. d.policy_id == policy_id) (current docs)
policy_for docs policy_id (some as_of) = version_as_of docs policy_id as_of

pub policy_get_summary : Text → Option Text → Option Policy → Text
policy_get_summary policy_id as_of (some doc) = policy_id ++ (lit " v" ++ doc.version)
policy_get_summary policy_id none none = lit "no approved version of " ++ policy_id
policy_get_summary policy_id (some day) none =
    lit "no approved version of " ++ (policy_id ++ (lit " as of " ++ day))

pub singleton : Option Control → List Control
singleton none = []
singleton (some c) = c ∷ []
