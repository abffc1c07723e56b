-- ===== src/Settings/Headers.antt =====
-- What the switches of mcp/src/compliance_mcp/settings.py guard, and the names of the headers.
use regulatory_compliance_he.Prelude.{
  Text, lit, ◌≡◌, ◌↔◌, ◌⊎◌, Option, some, true, false, lower, strip,
}
use regulatory_compliance_he.Settings.{Env, Settings}
use regulatory_compliance_he.Settings.Guards.{IsEither}

-- The variable is set to a word that means yes, or to one that does not.
abbrev pub IsSwitchedOn : Option Text → Type 0
IsSwitchedOn o =
    (raw : Text) × (o ≡ some raw)
    × (IsEither "1" "true" (lower (strip raw)) ⊎ IsEither "yes" "on" (lower (strip raw)))

abbrev pub IsSwitchedOff : Option Text → Type 0
IsSwitchedOff o =
    (raw : Text) × (o ≡ some raw)
    × (¬ (IsEither "1" "true" (lower (strip raw)) ⊎ IsEither "yes" "on" (lower (strip raw))))

abbrev pub IsGuarded : Env → Settings → Type 0
IsGuarded env s =
    (lower s.identity_header ≡ s.identity_header)
    × (lower s.session_header ≡ s.session_header)
    × ((s.allow_clock_override ≡ true) ↔ IsSwitchedOn (env (lit "COMPLIANCE_ALLOW_CLOCK_OVERRIDE")))
    × ((s.identity_header_strict ≡ false)
        ↔ IsSwitchedOff (env (lit "COMPLIANCE_IDENTITY_HEADER_STRICT")))
