-- ===== src/Examples/SettingsRuns.antt =====
-- The settings of mcp/src/compliance_mcp/settings.py under a concrete environment.
use regulatory_compliance_he.Prelude.{Text, lit, [], ◌∷◌}
use regulatory_compliance_he.Prelude.Int.{pos}
use regulatory_compliance_he.Prelude.Map.{Dict, get}
use regulatory_compliance_he.Settings.{Env, Checked}
use regulatory_compliance_he.Server.{by_header}
use regulatory_compliance_he.Review.{oidc}

abbrev variables : Dict Text
variables =
    (lit "COMPLIANCE_IDENTITY_MODE", lit "header")
    ∷ (lit "COMPLIANCE_IDENTITY_HEADER", lit "X-User")
    ∷ (lit "COMPLIANCE_REVIEW_IDENTITY_MODE", lit "oidc")
    ∷ (lit "COMPLIANCE_MCP_PORT", lit " 9_000")
    ∷ (lit "COMPLIANCE_AUDIT_ROTATE_BYTES", [])
    ∷ []

abbrev production : Env
production name = get variables name

abbrev here : Text → Text
here path = path

abbrev production_values : Checked
production_values = record {
  rotate_bytes = pos 50_000_000;
  anchor_every = pos 100;
  port = pos 9000;
  mode = by_header;
  ttl = pos 60;
  review_mode = oidc;
  rate_limit = pos 120;
}
