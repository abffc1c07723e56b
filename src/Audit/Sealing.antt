-- ===== src/Audit/Sealing.antt =====
-- A record that mcp/src/compliance_mcp/audit.py has just sealed is a link of the chain.
use regulatory_compliance_he.Prelude.{
  Text, lit, ◌≡◌, refl, inl, inr, some, ok, false, keep, is_empty, ◌==◌, Bool-cases,
}
use regulatory_compliance_he.Prelude.Map.{Dict, get, put}
use regulatory_compliance_he.Json.{Json, str}
use regulatory_compliance_he.Audit.Record.{
  Moment, digest, fields, seal, get_text, text_of, without_seals,
}
use regulatory_compliance_he.Audit.Writer.{hash_or_genesis, next_of, next_seq}
use regulatory_compliance_he.Audit.Chain.{IsLink, HasMac}

module _ (sha256 : Text → Text) (hmac : Text → Text → Text) (key agent_id : Text) (moment : Moment)
    (seq : Json) (requester session_id directory_version tool : Text) (args : Json)
    (outcome summary prev : Text) (mac_written : (k h : Text) → is_empty (hmac k h) ≡ false) where
  abbrev body : Dict Json
  body =
      fields agent_id moment seq requester session_id directory_version tool args outcome summary
        (str prev)

  -- Taking the seals off gives the record that was sealed.
  without_seals-seal : without_seals (seal sha256 hmac key body) ≡ body
  unfolding without_seals seal fields put keep ◌==◌ lit
  without_seals-seal = elim (Bool-cases (is_empty key)) [ inl e ↦ rw e | inr e ↦ rw e ]

  get_prev_hash-seal : get_text (seal sha256 hmac key body) "prev_hash" ≡ some prev
  unfolding get_text text_of seal fields put get ◌==◌ lit
  get_prev_hash-seal = elim (Bool-cases (is_empty key)) [ inl e ↦ rw e | inr e ↦ rw e ]

  get_hash-seal : get_text (seal sha256 hmac key body) "hash" ≡ some (digest sha256 body)
  unfolding get_text text_of seal fields put get ◌==◌ lit
  get_hash-seal = elim (Bool-cases (is_empty key)) [ inl e ↦ rw e | inr e ↦ rw e ]

  HasMac-seal : HasMac sha256 hmac key (digest sha256 body) (seal sha256 hmac key body)
  unfolding get_text text_of seal fields put get ◌==◌ lit
  HasMac-seal = elim (Bool-cases (is_empty key)) [
    | inl e ↦ inl e
    | inr e ↦ rw e (inr (refl, mac_written key (digest sha256 body)))
  ]

  pub seal-IsLink : IsLink sha256 hmac key prev (digest sha256 body) (seal sha256 hmac key body)
  seal-IsLink = record {
    linked = get_prev_hash-seal;
    hashed = get_hash-seal;
    intact = rw without_seals-seal;
    keyed = HasMac-seal;
  }

  -- What the next write reads of the record: its hash.
  pub hash_or_genesis-seal :
      hash_or_genesis (some (seal sha256 hmac key body)) ≡ ok (str (digest sha256 body))
  unfolding hash_or_genesis seal fields put get ◌==◌ lit
  hash_or_genesis-seal = elim (Bool-cases (is_empty key)) [ inl e ↦ rw e | inr e ↦ rw e ]

  pub next_seq-seal : next_seq (some (seal sha256 hmac key body)) ≡ next_of (some seq)
  unfolding next_seq seal fields put get ◌==◌ lit
  next_seq-seal = elim (Bool-cases (is_empty key)) [ inl e ↦ rw e | inr e ↦ rw e ]

  -- What a reader of the record finds under the names of the call.
  pub get_fields-seal :
      (get_text (seal sha256 hmac key body) "requester" ≡ some requester)
      × (get_text (seal sha256 hmac key body) "tool" ≡ some tool)
      × (get_text (seal sha256 hmac key body) "outcome" ≡ some outcome)
      × (get_text (seal sha256 hmac key body) "result_summary" ≡ some summary)
      × (get_text (seal sha256 hmac key body) "session_id" ≡ some session_id)
      × (get_text (seal sha256 hmac key body) "directory_version" ≡ some directory_version)
  unfolding get_text text_of seal fields put get ◌==◌ lit
  get_fields-seal = elim (Bool-cases (is_empty key)) [
    | inl e ↦ rw e (refl, refl, refl, refl, refl, refl)
    | inr e ↦ rw e (refl, refl, refl, refl, refl, refl)
  ]
