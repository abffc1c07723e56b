-- ===== src/Store/Controls.antt =====
-- `ControlLibrary` of mcp/src/compliance_mcp/store.py: controls and test results, over the records
-- that it has loaded. The JSON that pydantic makes of a control for a text search is a parameter.
use regulatory_compliance_he.Prelude.{
  Text, Option, ◌&&◌, List, [], ◌∷◌, keep, lower, contains, ◌==◌,
}
use regulatory_compliance_he.Prelude.Map.{Dict, put, values}
use regulatory_compliance_he.Models.{Control, TestResult}
use regulatory_compliance_he.Store.Dates.{in_range}

-- `{c.control_id: c for c in ...}`
unfoldable pub index_from : Dict Control → List Control → Dict Control
index_from d [] = d
index_from d (c ∷ cs) = index_from (put d c.control_id c) cs

unfoldable pub search : (Control → Text) → Dict Control → Text → List Control
search dump_json controls query =
    keep (λ c. contains (lower query) (lower (dump_json c))) (values controls)

unfoldable pub results : List TestResult → Text → Option Text → Option Text → List TestResult
results tests control_id start end =
    keep (λ t. (t.control_id == control_id) && in_range t.tested_on start end) tests
