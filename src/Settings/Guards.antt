-- ===== src/Settings/Guards.antt =====
-- When the settings of mcp/src/compliance_mcp/settings.py can be read.
use regulatory_compliance_he.Prelude.{
  Text, String, lit, ◌≡◌, ◌↔◌, ◌⊎◌, inl, inr, refl, Option, none, some, [], ◌∷◌, arith, ◌==◌,
  eq_iff, Bool-cases, Option-cases, ok, >>=-eq-ok,
}
use regulatory_compliance_he.Prelude.Int.{ℤ, pos}
use regulatory_compliance_he.Server.{IdentityMode, by_header, by_parameter}
use regulatory_compliance_he.Review.{ReviewIdentityMode, oidc, dev}
use regulatory_compliance_he.Settings.{
  Env, env_text, number_or, env_int, identity_mode_of, review_mode_of, Settings, Checked,
  checked_values, settings_from, from_env,
}
use regulatory_compliance_he.Settings.Numbers.{parse_int}

-- A variable that is unset, empty or an integer.
abbrev pub IsNumber : Option Text → Type 0
IsNumber none = Unit
IsNumber (some []) = Unit
IsNumber (some (c ∷ s)) = (n : ℤ) × (parse_int (c ∷ s) ≡ some n)

abbrev pub IsEither : String → String → Text → Type 0
IsEither a b t = (t ≡ lit a) ⊎ (t ≡ lit b)

-- What the variables have to be.
pub record IsReadable (env : Env) : Type 0 where
  pub rotate_bytes : IsNumber (env (lit "COMPLIANCE_AUDIT_ROTATE_BYTES"))
  pub anchor_every : IsNumber (env (lit "COMPLIANCE_AUDIT_ANCHOR_EVERY"))
  pub port : IsNumber (env (lit "COMPLIANCE_MCP_PORT"))
  pub mode : IsEither "header" "parameter" (env_text env "COMPLIANCE_IDENTITY_MODE" "parameter")
  pub ttl : IsNumber (env (lit "COMPLIANCE_DIRECTORY_TTL_SECONDS"))
  pub review_mode : IsEither "oidc" "dev" (env_text env "COMPLIANCE_REVIEW_IDENTITY_MODE" "dev")
  pub rate_limit : IsNumber (env (lit "COMPLIANCE_RATE_LIMIT_PER_MINUTE"))

number_or-eq-ok :
    (o : Option Text) (default : ℤ) → ((n : ℤ) × (number_or o default ≡ ok n)) ↔ IsNumber o
unfolding number_or
number_or-eq-ok none default = (λ h. tt, λ h. (default, refl))
number_or-eq-ok (some []) default = (λ h. tt, λ h. (default, refl))
number_or-eq-ok (some (c ∷ s)) default = elim (Option-cases (parse_int (c ∷ s))) [
  | inl e ↦ (λ (n, h). absurd (ground (arith, e, h)), λ (n, h). absurd (cc (e, h)))
  | inr (n, e) ↦ (λ h. (n, e), λ h. (n, ground (arith, e)))
]

identity_mode_of-eq-ok :
    (t : Text)
    → ((m : IdentityMode) × (identity_mode_of t ≡ ok m)) ↔ IsEither "header" "parameter" t
unfolding identity_mode_of
identity_mode_of-eq-ok t = elim (Bool-cases (t == lit "header")) [
  | inl e ↦ (λ h. inl ((eq_iff t (lit "header")).0 e), λ h. (by_header, ground (arith, e)))
  | inr e ↦ elim (Bool-cases (t == lit "parameter")) [
    | inl e' ↦
        (λ h. inr ((eq_iff t (lit "parameter")).0 e'), λ h. (by_parameter, ground (arith, e, e')))
    | inr e' ↦ (
      λ (m, h). absurd (ground (arith, e, e', h)),
      λ h. absurd (ground (arith, e, e', h, eq_iff t (lit "header"), eq_iff t (lit "parameter"))),
    )
  ]
]

review_mode_of-eq-ok :
    (t : Text) → ((m : ReviewIdentityMode) × (review_mode_of t ≡ ok m)) ↔ IsEither "oidc" "dev" t
unfolding review_mode_of
review_mode_of-eq-ok t = elim (Bool-cases (t == lit "oidc")) [
  | inl e ↦ (λ h. inl ((eq_iff t (lit "oidc")).0 e), λ h. (oidc, ground (arith, e)))
  | inr e ↦ elim (Bool-cases (t == lit "dev")) [
    | inl e' ↦ (λ h. inr ((eq_iff t (lit "dev")).0 e'), λ h. (dev, ground (arith, e, e')))
    | inr e' ↦ (
      λ (m, h). absurd (ground (arith, e, e', h)),
      λ h. absurd (ground (arith, e, e', h, eq_iff t (lit "oidc"), eq_iff t (lit "dev"))),
    )
  ]
]

checked_values-IsReadable : (env : Env) (c : Checked) → checked_values env ≡ ok c → IsReadable env
unfolding checked_values env_int
checked_values-IsReadable env c h =
    let (v1, e1, h1) = >>=-eq-ok _ _ h in
    let (v2, e2, h2) = >>=-eq-ok _ _ h1 in
    let (v3, e3, h3) = >>=-eq-ok _ _ h2 in
    let (v4, e4, h4) = >>=-eq-ok _ _ h3 in
    let (v5, e5, h5) = >>=-eq-ok _ _ h4 in
    let (v6, e6, h6) = >>=-eq-ok _ _ h5 in
    let (v7, e7, h7) = >>=-eq-ok _ _ h6 in
    record {
      rotate_bytes = (number_or-eq-ok _ _).0 (v1, e1);
      anchor_every = (number_or-eq-ok _ _).0 (v2, e2);
      port = (number_or-eq-ok _ _).0 (v3, e3);
      mode = (identity_mode_of-eq-ok _).0 (v4, e4);
      ttl = (number_or-eq-ok _ _).0 (v5, e5);
      review_mode = (review_mode_of-eq-ok _).0 (v6, e6);
      rate_limit = (number_or-eq-ok _ _).0 (v7, e7);
    }

IsReadable-checked_values :
    (env : Env) → IsReadable env → (c : Checked) × (checked_values env ≡ ok c)
unfolding checked_values env_int
IsReadable-checked_values env r =
    let (v1, e1) =
      (number_or-eq-ok (env (lit "COMPLIANCE_AUDIT_ROTATE_BYTES")) (pos 50_000_000)).1
        r.rotate_bytes in
    let (v2, e2) =
      (number_or-eq-ok (env (lit "COMPLIANCE_AUDIT_ANCHOR_EVERY")) (pos 100)).1 r.anchor_every in
    let (v3, e3) = (number_or-eq-ok (env (lit "COMPLIANCE_MCP_PORT")) (pos 8765)).1 r.port in
    let (v4, e4) = (identity_mode_of-eq-ok _).1 r.mode in
    let (v5, e5) =
      (number_or-eq-ok (env (lit "COMPLIANCE_DIRECTORY_TTL_SECONDS")) (pos 60)).1 r.ttl in
    let (v6, e6) = (review_mode_of-eq-ok _).1 r.review_mode in
    let (v7, e7) =
      (number_or-eq-ok (env (lit "COMPLIANCE_RATE_LIMIT_PER_MINUTE")) (pos 120)).1 r.rate_limit in
    (
      record {
        rotate_bytes = v1;
        anchor_every = v2;
        port = v3;
        mode = v4;
        ttl = v5;
        review_mode = v6;
        rate_limit = v7;
      },
      rw (e1, e2, e3, e4, e5, e6, e7) refl,
    )

-- The settings can be read exactly if the numbers are unset, empty or integers and the two modes are
-- words that they may be.
pub from_env-eq-ok :
    (resolve : Text → Text) (env : Env)
    → ((s : Settings) × (from_env resolve env ≡ ok s)) ↔ IsReadable env
unfolding from_env
from_env-eq-ok resolve env = (
  λ (s, h). let (c, e, same) = >>=-eq-ok _ _ h in checked_values-IsReadable env c e,
  λ r. let (c, e) = IsReadable-checked_values env r in (settings_from resolve env c, rw e refl),
)
