-- ===== src/Server/Edge.antt =====
-- `_edge_middleware` of mcp/src/compliance_mcp/server.py: what becomes of a request before the MCP
-- application sees it. The headers are decoded; the responses are the cases of `Action`.
use regulatory_compliance_he.Prelude.{
  Text, lit, ◌≡◌, ◌↔◌, ◌⊎◌, some, Bool, true, false, not, ◌&&◌, ◌++◌, all, ltb, is_empty, ◌==◌,
  eq_iff, arith, Result, ok, err, if◌then◌else◌,
}
use regulatory_compliance_he.Prelude.Map.{Dict, get}
use regulatory_compliance_he.Server.{headers_of, or_empty}

pub record Scope : Type 0 where
  pub is_http : Bool
  pub path : Text
  pub method : Text
  pub headers : Dict Text

pub data Action : Type 0 where
  health metrics unauthorized method_not_allowed forward : Action

-- The `TypeError` of a comparison of texts that are not ASCII.
pub data EdgeError : Type 0 where
  type_error : EdgeError

pub is_ascii : Text → Bool
is_ascii t = all (λ c. ltb c 128) t

abbrev pub bearer : Text → Text
bearer token = lit "Bearer " ++ token

pub authorization : Scope → Text
authorization scope = or_empty (get (headers_of (some scope.headers)) (lit "authorization"))

-- `hmac.compare_digest`
unfoldable pub same_secret : Text → Text → Result EdgeError Bool
same_secret given wanted =
    if is_ascii given && is_ascii wanted then ok (given == wanted) else err type_error

abbrev pub by_method : Scope → Action
by_method scope = if scope.method == lit "GET" then method_not_allowed else forward

abbrev pub after_token : Scope → Result EdgeError Bool → Result EdgeError Action
after_token scope (err e) = err e
after_token scope (ok false) = ok unauthorized
after_token scope (ok true) = ok (by_method scope)

-- `asgi`
unfoldable pub edge : Text → Scope → Result EdgeError Action
edge token scope =
    if not scope.is_http
    then ok forward
    else if scope.path == lit "/healthz"
    then ok health
    else if scope.path == lit "/metrics"
    then ok metrics
    else if is_empty token
    then ok (by_method scope)
    else after_token scope (same_secret (authorization scope) (bearer token))

-- What a request over HTTP needs to reach the application.
abbrev pub IsLetIn : Text → Scope → Type 0
IsLetIn token scope =
    ((scope.path == lit "/healthz") ≡ false)
    × ((scope.path == lit "/metrics") ≡ false)
    × ((is_empty token ≡ true)
        ⊎ ((is_ascii (authorization scope) ≡ true)
            × (is_ascii (bearer token) ≡ true)
            × (authorization scope ≡ bearer token)))
    × ((scope.method == lit "GET") ≡ false)

same_secret_iff :
    (given wanted : Text)
    → (same_secret given wanted ≡ ok true)
      ↔ ((is_ascii given ≡ true) × (is_ascii wanted ≡ true) × (given ≡ wanted))
unfolding same_secret
same_secret_iff given wanted =
    (λ e. ground (arith, e, eq_iff given wanted), λ h. ground (arith, h, eq_iff given wanted))

-- A request over HTTP reaches the application exactly if it asks for neither of the two open paths,
-- carries the bearer token where one is set, and is no GET.
pub edge-forward :
    (token : Text) (scope : Scope)
    → scope.is_http ≡ true
    → (edge token scope ≡ ok forward) ↔ IsLetIn token scope
unfolding edge
edge-forward token scope http =
    let secret = same_secret_iff (authorization scope) (bearer token) in
    (λ e. ground (arith, e, http, secret), λ h. ground (arith, h, http, secret))
