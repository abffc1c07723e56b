-- ===== src/Server/Spoofing.antt =====
-- What the model can make of the identity in mcp/src/compliance_mcp/server.py.
use regulatory_compliance_he.Prelude.{
  Text, ◌≡◌, refl, inl, inr, Option, true, false, ◌&&◌, [], ◌∷◌, arith, Bool-cases, ok, strip,
  lower, if◌then◌else◌, ◌∙◌, subst,
}
use regulatory_compliance_he.Prelude.Map.{Dict}
use regulatory_compliance_he.Models.{User, header, CallerIdentity}
use regulatory_compliance_he.Directory.{key_of, look_up}
use regulatory_compliance_he.Server.{
  IdentityMode, by_header, by_parameter, IdentitySettings, from_header, session_of, disagrees,
  header_identity, identity_by, caller_identity,
}

-- The identity that the gateway vouches for, or none.
abbrev pub IsVouched : IdentitySettings → Option (Dict Text) → Text → CallerIdentity → Type 0
IsVouched s ctx requester_param caller =
    (caller.source ≡ header)
    × (caller.session_id ≡ session_of s ctx)
    × (caller.requester ≡ (
        if s.identity_header_strict && disagrees requester_param (from_header s ctx)
        then []
        else from_header s ctx))

-- With identities by header, the requester is the name in the gateway's header, whatever the model
-- passes as a parameter: a parameter that disagrees can only, where the setting is strict, leave the
-- call without a requester.
pub caller_identity-IsVouched :
    (s : IdentitySettings) (ctx : Option (Dict Text)) (requester_param : Text)
    → s.identity_mode ≡ by_header
    → IsVouched s ctx requester_param (caller_identity s ctx requester_param)
unfolding caller_identity identity_by header_identity
caller_identity-IsVouched s ctx requester_param mode =
    by_mode s.identity_mode mode (vouched (from_header s ctx) (session_of s ctx))
  where
    by_mode :
        (m : IdentityMode)
        → m ≡ by_header
        → IsVouched s ctx requester_param
            (header_identity s (from_header s ctx) requester_param (session_of s ctx))
        → IsVouched s ctx requester_param
            (identity_by m s (from_header s ctx) requester_param (session_of s ctx))
    by_mode by_header e v = v
    by_mode by_parameter e v = absurd (cc e)

    vouched :
        (name session_id : Text)
        → ((header_identity s name requester_param session_id).source ≡ header)
          × ((header_identity s name requester_param session_id).session_id ≡ session_id)
          × ((header_identity s name requester_param session_id).requester
              ≡ (if s.identity_header_strict && disagrees requester_param name then [] else name))
    vouched [] session_id = (refl, refl, ground arith)
    vouched (c ∷ name) session_id =
        elim (Bool-cases (s.identity_header_strict && disagrees requester_param (c ∷ name))) [
          | inl e ↦ rw e (refl, refl, refl)
          | inr e ↦ rw e (refl, refl, refl)
        ]

look_up-nobody : (users : Dict User) (user : User) → ¬ (look_up users [] ≡ ok user)
unfolding look_up key_of lower strip
look_up-nobody users user e = ground (arith, e)

-- With identities by header, a user whom the directory finds for the caller is the one it finds for
-- the name in the gateway's header: no parameter that the model passes makes a call act for someone
-- else, and where the setting is strict a call with a user has no parameter that disagrees.
pub look_up-caller_identity :
    (s : IdentitySettings) (ctx : Option (Dict Text)) (requester_param : Text) (users : Dict User)
    (user : User)
    → s.identity_mode ≡ by_header
    → look_up users (caller_identity s ctx requester_param).requester ≡ ok user
    → (look_up users (from_header s ctx) ≡ ok user)
      × ((s.identity_header_strict && disagrees requester_param (from_header s ctx)) ≡ false)
look_up-caller_identity s ctx requester_param users user mode found =
    let (source, session, requester) = caller_identity-IsVouched s ctx requester_param mode in
    elim (Bool-cases (s.identity_header_strict && disagrees requester_param (from_header s ctx))) [
      | inl e ↦ absurd (
          look_up-nobody users user
            (subst (λ r. look_up users r ≡ ok user) (requester ∙ spoofed e) found))
      | inr e ↦ (subst (λ r. look_up users r ≡ ok user) (requester ∙ honest e) found, e)
    ]
  where
    spoofed :
        (s.identity_header_strict && disagrees requester_param (from_header s ctx)) ≡ true
        → (if s.identity_header_strict && disagrees requester_param (from_header s ctx)
            then []
            else from_header s ctx)
          ≡ []
    spoofed e = rw e refl

    honest :
        (s.identity_header_strict && disagrees requester_param (from_header s ctx)) ≡ false
        → (if s.identity_header_strict && disagrees requester_param (from_header s ctx)
            then []
            else from_header s ctx)
          ≡ from_header s ctx
    honest e = rw e refl
