-- ===== src/Audit/Chain.antt =====
-- The chain that mcp/src/compliance_mcp/audit.py promises, and that `verify` accepts exactly it.
use regulatory_compliance_he.Prelude.{
  Text, lit, ◌≡◌, ◌↔◌, ◌⊎◌, refl, inl, Option, none, some, true, false, not, List, [], ◌∷◌, arith,
  ok, is_empty, eq_iff,
}
use regulatory_compliance_he.Prelude.Map.{Dict, get}
use regulatory_compliance_he.Json.{Json, str}
use regulatory_compliance_he.Audit.Record.{digest, get_text, text_of, without_seals}
use regulatory_compliance_he.Audit.Verifier.{
  Walk, is_true, is_text, compare_mac, check_mac, check_record,
}

is_text_iff : (t : Text) (found : Option Text) → (is_text t found ≡ true) ↔ (found ≡ some t)
unfolding is_text
is_text_iff t none = (λ e. cc, λ e. cc)
is_text_iff t (some s) = (λ e. ground (arith, eq_iff s t), λ e. ground (arith, eq_iff s t))

is_true_text :
    (found : Option Json) (t : Text) → text_of found ≡ some t → is_true found ≡ not (is_empty t)
unfolding text_of is_true
is_true_text none t e = cc
is_true_text (some (str s)) t e = ground arith
is_true_text (some other) t e = cc

compare_mac-eq-ok :
    (w : Walk) (where_ : Text) (found : Option Text) (mac : Text)
    → (compare_mac w where_ found mac ≡ ok tt) ↔ (found ≡ some mac)
unfolding compare_mac
compare_mac-eq-ok w where_ none mac = (λ e. cc, λ e. cc)
compare_mac-eq-ok w where_ (some s) mac =
    (λ e. ground (arith, eq_iff s mac), λ e. ground (arith, eq_iff s mac))

module _ (sha256 : Text → Text) (hmac : Text → Text → Text) (key : Text) where
  -- Under a key the record carries its MAC, which is not empty.
  abbrev pub HasMac : Text → Dict Json → Type 0
  HasMac hash rec =
      (is_empty key ≡ true)
      ⊎ ((get_text rec "mac" ≡ some (hmac key hash)) × (is_empty (hmac key hash) ≡ false))

  -- A record that links to the head before it and is sealed by its own hash.
  pub record IsLink (prev : Text) (hash : Text) (rec : Dict Json) : Type 0 where
    pub linked : get_text rec "prev_hash" ≡ some prev
    pub hashed : get_text rec "hash" ≡ some hash
    pub intact : digest sha256 (without_seals rec) ≡ hash
    pub keyed : HasMac hash rec

  -- A chain of records from one head to another.
  abbrev pub IsChain : Text → List (Dict Json) → Text → Type 0
  IsChain prev [] head = prev ≡ head
  IsChain prev (rec ∷ recs) head = (hash : Text) × IsLink prev hash rec × IsChain hash recs head

  check_mac-eq-ok :
      (w : Walk) (where_ : Text) (rec : Dict Json) (hash : Text)
      → (check_mac hmac key w where_ rec hash ≡ ok tt) ↔ HasMac hash rec
  unfolding check_mac get_text
  check_mac-eq-ok w where_ rec hash =
      let compared = compare_mac-eq-ok w where_ (get_text rec "mac") (hmac key hash) in
      let truth = is_true_text (get rec (lit "mac")) (hmac key hash) in
      (λ e. ground (arith, compared, truth), λ h. ground (arith, compared, truth))

  check_record-inversion :
      (w : Walk) (where_ : Text) (rec : Dict Json) (hash : Text)
      → check_record sha256 hmac key w where_ rec ≡ ok hash
      → (is_text w.prev (get_text rec "prev_hash") ≡ true)
        × (is_text (digest sha256 (without_seals rec)) (get_text rec "hash") ≡ true)
        × (check_mac hmac key w where_ rec (digest sha256 (without_seals rec)) ≡ ok tt)
        × (digest sha256 (without_seals rec) ≡ hash)
  unfolding check_record
  check_record-inversion w where_ rec hash e = ground arith

  pub check_record-eq-ok :
      (w : Walk) (where_ : Text) (rec : Dict Json) (hash : Text)
      → (check_record sha256 hmac key w where_ rec ≡ ok hash) ↔ IsLink w.prev hash rec
  unfolding check_record
  check_record-eq-ok w where_ rec hash =
      let linked = is_text_iff w.prev (get_text rec "prev_hash") in
      let hashed = is_text_iff (digest sha256 (without_seals rec)) (get_text rec "hash") in
      let keyed = check_mac-eq-ok w where_ rec (digest sha256 (without_seals rec)) in
      (
        λ e.
            let (p, q, r, same) = check_record-inversion w where_ rec hash e in
            record {
              linked = linked.0 p;
              hashed = rw (← same) (hashed.0 q);
              intact = same;
              keyed = rw (← same) (keyed.0 r);
            },
        λ h. rw (linked.1 h.linked) (
            rw (hashed.1 (rw h.intact h.hashed))
              (rw (keyed.1 (rw h.intact h.keyed)) (rw h.intact))),
      )

-- Who has no key can follow the chain as well.
pub IsChain-unkeyed :
    (sha256 : Text → Text) (hmac hmac' : Text → Text → Text) (key prev : Text)
    (recs : List (Dict Json)) (head : Text)
    → IsChain sha256 hmac key prev recs head
    → IsChain sha256 hmac' [] prev recs head
IsChain-unkeyed sha256 hmac hmac' key prev [] head e = e
IsChain-unkeyed sha256 hmac hmac' key prev (rec ∷ recs) head (hash, l, c) =
    let bare : IsLink sha256 hmac' [] prev hash rec = record {
      linked = l.linked;
      hashed = l.hashed;
      intact = l.intact;
      keyed = inl refl;
    } in
    (hash, bare, IsChain-unkeyed sha256 hmac hmac' key hash recs head c)
