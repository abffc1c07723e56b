-- ===== src/Examples/ServerRuns.antt =====
-- The edge of mcp/src/compliance_mcp/server.py, the tokens of oidc.py and the forwarder of audit.py, on concrete data.
use regulatory_compliance_he.Prelude.{
  Text, Result, is_empty, lit, ◌≡◌, ◌↔◌, refl, arith, some, true, false, List, [], ◌∷◌, ◌++◌, ok,
  ◌&&◌, lower, strip, ◌==◌,
}
use regulatory_compliance_he.Prelude.Map.{Dict, get, put}
use regulatory_compliance_he.Models.{User, person}
use regulatory_compliance_he.Directory.{key_of, check_user, look_up}
use regulatory_compliance_he.Json.{Json, str}
use regulatory_compliance_he.Audit.Forwarder.{
  Forwarder, acknowledged, untaken, unconfirmed, Event, enqueue, turn, crash, enqueued, on_events,
}
use regulatory_compliance_he.Audit.Delivery.{done, IsSound, on_events-IsSound}
use regulatory_compliance_he.Server.{
  IdentitySettings, by_header, headers_of, lower_keys, from_header, disagrees, header_identity,
  identity_by, caller_identity,
}
use regulatory_compliance_he.Server.Spoofing.{look_up-caller_identity}
use regulatory_compliance_he.Oidc.{OidcConfig, verified, verified-eq-ok}
use regulatory_compliance_he.Server.Edge.{Scope, forward, edge, IsLetIn, edge-forward}

abbrev settings : IdentitySettings
settings = record {
  identity_mode = by_header;
  identity_header = lit "x-requester";
  identity_header_strict = true;
  session_header = lit "x-session-id";
}

abbrev headers : Dict Text
headers = (lit "X-Requester", lit "ana@bank.example") ∷ (lit "Authorization", lit "Bearer t0") ∷ []

abbrev ana : User
ana = record {
  id = lit "7";
  upn = lit "ana@bank.example";
  name = lit "Ana";
  groups = lit "compliance-analysts" ∷ [];
  active = true;
  kind = person;
}

abbrev users : Dict User
users = (lit "ana@bank.example", ana) ∷ []

ana_found :
    look_up users (caller_identity settings (some headers) (lit " ANA@bank.example")).requester
    ≡ ok ana
unfolding look_up caller_identity identity_by header_identity key_of check_user lower strip
    from_header headers_of lower_keys get put lit ◌==◌
ana_found = refl

look_up-caller_identity_example :
    (look_up users (from_header settings (some headers)) ≡ ok ana)
    × ((settings.identity_header_strict
          && disagrees (lit " ANA@bank.example") (from_header settings (some headers)))
        ≡ false)
look_up-caller_identity_example =
    look_up-caller_identity settings (some headers) (lit " ANA@bank.example") users ana refl
      ana_found

abbrev post : Scope
post = record { is_http = true; path = lit "/mcp"; method = lit "POST"; headers = headers }

edge-forward_example : (edge (lit "t0") post ≡ ok forward) ↔ IsLetIn (lit "t0") post
edge-forward_example = edge-forward (lit "t0") post refl

abbrev r0 : Dict Json
r0 = (lit "seq", str (lit "0")) ∷ []

abbrev idle : Forwarder
idle = record { spool = r0 ∷ []; backoff = 1; received = []; sent = [] }

-- A timeout after the sink has taken the record, a record that arrives, a restart, and an answer.
abbrev night : List Event
night = turn unconfirmed ∷ enqueue [] ∷ crash untaken ∷ turn acknowledged ∷ []

on_events-IsSound_example :
    ((on_events night idle).sent ++ (on_events night idle).spool
      ≡ (idle.sent ++ idle.spool) ++ enqueued night)
    × IsSound (on_events night idle)
on_events-IsSound_example =
    on_events-IsSound night idle
      (record { arrived = done; low = ground arith; high = ground arith })

abbrev oidc_config : OidcConfig
oidc_config = record {
  issuer = lit "https://login.bank.example";
  audience = lit "compliance";
  jwks_url = lit "https://login.bank.example/keys";
  username_claim = lit "preferred_username";
}

-- Every token is accepted as one of Ana.
abbrev decode_ana : OidcConfig → Text → Result Text (Dict Json)
decode_ana c token = ok ((lit "preferred_username", str (lit "ana")) ∷ [])

verified-eq-ok_example : (verified decode_ana oidc_config (lit "t") ≡ ok (lit "ana")) ↔ (
    ((is_empty oidc_config.issuer ≡ false)
      × (is_empty oidc_config.audience ≡ false)
      × (is_empty oidc_config.jwks_url ≡ false))
    × ((claims : Dict Json) × (decode_ana oidc_config (lit "t") ≡ ok claims)
        × (get claims oidc_config.username_claim ≡ some (str (lit "ana")))
        × (is_empty (lit "ana") ≡ false)))
verified-eq-ok_example = verified-eq-ok decode_ana oidc_config (lit "t") (lit "ana")
