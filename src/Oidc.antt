-- ===== src/Oidc.antt =====
-- mcp/src/compliance_mcp/oidc.py: who the bearer of an identity token is. The token library is a
-- parameter, which gives the claims of a token or its reason to refuse it.
use regulatory_compliance_he.Prelude.{
  Text, lit, ◌≡◌, ◌↔◌, arith, Option, none, some, false, List, [], ◌∷◌, ◌++◌, inl, inr, subst, join,
  map, upper, is_empty, Result-cases, Result, ok, err, if◌then◌else◌, ◌>>=◌,
}
use regulatory_compliance_he.Prelude.Map.{Dict, get}
use regulatory_compliance_he.Json.{Json, null, boolean, number, str, arr, obj}

pub record OidcConfig : Type 0 where
  pub issuer : Text
  pub audience : Text
  pub jwks_url : Text
  pub username_claim : Text

pub data OidcError : Type 0 where
  -- `ValueError`, `TokenInvalid`
  value_error token_invalid : Text → OidcError

unfoldable pub if_empty : Text → Text → List Text
if_empty name value = if is_empty value then name ∷ [] else []

-- The settings without which no token can be verified.
unfoldable pub missing : OidcConfig → List Text
missing c =
    if_empty (lit "issuer") c.issuer
    ++ (if_empty (lit "audience") c.audience ++ if_empty (lit "jwks_url") c.jwks_url)

abbrev pub needs : List Text → Text
needs names = lit "OIDC review identity needs COMPLIANCE_OIDC_" ++ join (lit "/") (map upper names)

unfoldable pub refuse_missing : List Text → Result OidcError (Unit {0})
refuse_missing [] = ok tt
refuse_missing (name ∷ names) = err (value_error (needs (name ∷ names)))

abbrev pub validate : OidcConfig → Result OidcError (Unit {0})
validate c = refuse_missing (missing c)

abbrev pub no_claim : Text → OidcError
no_claim claim = token_invalid (lit "id token has no '" ++ (claim ++ lit "' claim"))

unfoldable pub name_in : Text → Option Json → Result OidcError Text
name_in claim (some (str name)) = if is_empty name then err (no_claim claim) else ok name
name_in claim _ = err (no_claim claim)

module _ (decode : OidcConfig → Text → Result Text (Dict Json)) where
  -- `username`
  unfoldable pub username : OidcConfig → Text → Result OidcError Text
  username c token = elim (decode c token) [
    | ok claims ↦ name_in c.username_claim (get claims c.username_claim)
    | err reason ↦ err (token_invalid (lit "id token rejected: " ++ reason))
  ]

  -- `OidcVerifier(config).username(token)`
  unfoldable pub verified : OidcConfig → Text → Result OidcError Text
  verified c token = validate c >>= λ u. username c token

validate-eq-ok :
    (c : OidcConfig)
    → (validate c ≡ ok tt) ↔ (
        (is_empty c.issuer ≡ false) × (is_empty c.audience ≡ false) × (is_empty c.jwks_url ≡ false))
unfolding missing if_empty refuse_missing
validate-eq-ok c = (λ e. ground (arith, e), λ h. ground (arith, h))

name_in-eq-ok :
    (claim : Text) (value : Option Json) (name : Text)
    → (name_in claim value ≡ ok name) ↔ ((value ≡ some (str name)) × (is_empty name ≡ false))
unfolding name_in
name_in-eq-ok claim none name = (λ e. absurd (cc e), λ h. absurd (cc (h.0)))
name_in-eq-ok claim (some (str t)) name = (λ e. ground (arith, e), λ h. ground (arith, h))
name_in-eq-ok claim (some null) name = (λ e. absurd (cc e), λ h. absurd (cc (h.0)))
name_in-eq-ok claim (some (boolean b)) name = (λ e. absurd (cc e), λ h. absurd (cc (h.0)))
name_in-eq-ok claim (some (number n)) name = (λ e. absurd (cc e), λ h. absurd (cc (h.0)))
name_in-eq-ok claim (some (arr xs)) name = (λ e. absurd (cc e), λ h. absurd (cc (h.0)))
name_in-eq-ok claim (some (obj m)) name = (λ e. absurd (cc e), λ h. absurd (cc (h.0)))

-- A token gives a name exactly if issuer, audience and key address are set, the token library accepts
-- the token, and its claim for the user's name is a text that is not empty, which is the name.
pub verified-eq-ok :
    (decode : OidcConfig → Text → Result Text (Dict Json)) (c : OidcConfig) (token name : Text)
    → (verified decode c token ≡ ok name) ↔ (
        ((is_empty c.issuer ≡ false)
          × (is_empty c.audience ≡ false)
          × (is_empty c.jwks_url ≡ false))
        × ((claims : Dict Json) × (decode c token ≡ ok claims)
            × (get claims c.username_claim ≡ some (str name))
            × (is_empty name ≡ false)))
unfolding verified username
verified-eq-ok decode c token name = elim (Result-cases (validate c)) [
  | inl (u, v) ↦ elim (Result-cases (decode c token)) [
    | inl (claims, e) ↦
        let named = name_in-eq-ok c.username_claim (get claims c.username_claim) name in
        (
          λ h.
              let (claim, given) = named.0 (ground (arith, h, v, e)) in
              ((validate-eq-ok c).0 v, (claims, e, claim, given)),
          λ (s, (k, d, claim, given)).
              let kept = named.1 (
                subst (λ k'. get k' c.username_claim ≡ some (str name)) (cc (d, e)) claim,
                given,
              ) in
              ground (arith, v, e, kept),
        )
    | inr (reason, e) ↦
        (λ h. absurd (ground (arith, h, v, e)), λ (s, (k, d, claim, given)). absurd (cc (e, d)))
  ]
  | inr (f, v) ↦
      (λ h. absurd (ground (arith, h, v)), λ (s, k). absurd (cc (v, (validate-eq-ok c).1 s)))
]
