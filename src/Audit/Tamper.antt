-- ===== src/Audit/Tamper.antt =====
-- What the head of the chain of mcp/src/compliance_mcp/audit.py commits to: the records of two logs that
-- `verify` accepts with one head.
use regulatory_compliance_he.Prelude.{
  Text, String, lit, ◌≡◌, ◌≢◌, ◌⊎◌, inl, inr, refl, sym, ap, subst, ◌∙◌, Option, none, some, true,
  false, List, [], ◌∷◌, arith, ok, length, keep, ◌==◌, eq_iff, Bool-cases,
}
use regulatory_compliance_he.Prelude.Map.{Dict, get}
use regulatory_compliance_he.Json.{Json, str, render, quote}
use regulatory_compliance_he.Json.Lookup.{shown, shown_value, dumps-shown}
use regulatory_compliance_he.Json.Quoting.{quote_injective}
use regulatory_compliance_he.Audit.Record.{
  canonical, digest, genesis, get_text, text_of, is_record_key, without_seals,
}
use regulatory_compliance_he.Audit.Writer.{AuditLog, Disk}
use regulatory_compliance_he.Audit.Verifier.{VerifyResult, verify}
use regulatory_compliance_he.Audit.Chain.{IsLink, IsChain}
use regulatory_compliance_he.Audit.Walks.{records_of}
use regulatory_compliance_he.Audit.Acceptance.{lines_of, verify_sound}

-- Two texts with one hash.
abbrev pub Collision : (Text → Text) → Type 0
Collision sha256 = (s : Text) × (t : Text) × (s ≢ t) × (sha256 s ≡ sha256 t)

-- The same text under every key but `mac`, which depends on the key of the log.
abbrev pub SameContent : Dict Json → Dict Json → Type 0
SameContent a b = (k : Text) → (k == lit "mac") ≡ false → shown a k ≡ shown b k

-- As many records, one like the other.
abbrev pub SameRecords : List (Dict Json) → List (Dict Json) → Type 0
SameRecords [] [] = Unit
SameRecords [] (b ∷ bs) = ⊥
SameRecords (a ∷ as_) [] = ⊥
SameRecords (a ∷ as_) (b ∷ bs) = SameContent a b × SameRecords as_ bs

get-without_seals :
    (d : Dict Json) (k : Text) → is_record_key k ≡ true → get (without_seals d) k ≡ get d k
unfolding get without_seals keep
get-without_seals [] k h = refl
get-without_seals ((j, v) ∷ d) k h = ground (arith, get-without_seals d k h, eq_iff j k)

text_of-some : (x : Option Json) (t : Text) → text_of x ≡ some t → x ≡ some (str t)
unfolding text_of
text_of-some none t e = cc
text_of-some (some (str s)) t e = cc
text_of-some (some v) t e = cc

shown_text :
    (d : Dict Json) (k : String) (t : Text)
    → get_text d k ≡ some t
    → shown d (lit k) ≡ some (quote t)
unfolding get_text render
shown_text d k t e = rw (text_of-some (get d (lit k)) t e)

-- Equal hashes are of equal texts, or the texts are a collision.
hashed_texts :
    (sha256 : Text → Text) (s t : Text) → sha256 s ≡ sha256 t → (s ≡ t) ⊎ Collision sha256
hashed_texts sha256 s t e = elim (Bool-cases (s == t)) [
  | inl same ↦ inl ((eq_iff s t).0 same)
  | inr other ↦ inr (s, t, (λ p. ground (arith, eq_iff s t, p, other)), e)
]

content-shown :
    (a b : Dict Json)
    → canonical (without_seals a) ≡ canonical (without_seals b)
    → (k : Text) → is_record_key k ≡ true
    → shown a k ≡ shown b k
unfolding canonical
content-shown a b e k h =
    let left = get-without_seals a k h in
    let right = get-without_seals b k h in
    rw (← ap shown_value left, ← ap shown_value right)
      (dumps-shown (without_seals a) (without_seals b) e k)

same_prev :
    (a b : Dict Json) (prev prev' : Text)
    → canonical (without_seals a) ≡ canonical (without_seals b)
    → get_text a "prev_hash" ≡ some prev
    → get_text b "prev_hash" ≡ some prev'
    → prev ≡ prev'
unfolding ◌==◌ lit
same_prev a b prev prev' e h h' =
    let same = content-shown a b e (lit "prev_hash") refl in
    let left = shown_text a "prev_hash" prev h in
    let right = shown_text b "prev_hash" prev' h' in
    let quoted : quote prev ≡ quote prev' = cc in quote_injective prev prev' quoted

same_content :
    (a b : Dict Json) (hash : Text)
    → canonical (without_seals a) ≡ canonical (without_seals b)
    → get_text a "hash" ≡ some hash
    → get_text b "hash" ≡ some hash
    → SameContent a b
same_content a b hash e h h' k other = elim (Bool-cases (k == lit "hash")) [
  | inl here ↦
      let key = (eq_iff k (lit "hash")).0 here in
      rw key (shown_text a "hash" hash h ∙ sym (shown_text b "hash" hash h'))
  | inr there ↦ content-shown a b e k (rw (other, there))
]

module _ (sha256 : Text → Text) (hmac hmac' : Text → Text → Text) (key key' : Text) where
  -- A link has the content and the predecessor of any other link with its hash.
  link-SameContent :
      (prev prev' hash : Text) (a b : Dict Json)
      → IsLink sha256 hmac key prev hash a
      → IsLink sha256 hmac' key' prev' hash b
      → ((prev ≡ prev') × SameContent a b) ⊎ Collision sha256
  unfolding digest
  link-SameContent prev prev' hash a b l l' =
      elim (hashed_texts sha256 (canonical (without_seals a)) (canonical (without_seals b))
        (l.intact ∙ sym l'.intact)) [
          | inr found ↦ inr found
          | inl same ↦ inl (
            same_prev a b prev prev' same l.linked l'.linked,
            same_content a b hash same l.hashed l'.hashed,
          )
        ]

  -- Chains of one length with one head agree from the end on.
  chains-SameRecords :
      (prev prev' head : Text) (as_ bs : List (Dict Json))
      → length as_ ≡ length bs
      → IsChain sha256 hmac key prev as_ head
      → IsChain sha256 hmac' key' prev' bs head
      → ((prev ≡ prev') × SameRecords as_ bs) ⊎ Collision sha256
  chains-SameRecords prev prev' head [] [] n e e' = inl (e ∙ sym e', tt)
  chains-SameRecords prev prev' head [] (b ∷ bs) n c c' = absurd (omega (arith, n))
  chains-SameRecords prev prev' head (a ∷ as_) [] n c c' = absurd (omega (arith, n))
  chains-SameRecords prev prev' head (a ∷ as_) (b ∷ bs) n (hash, l, c) (hash', l', c') =
      elim (chains-SameRecords hash hash' head as_ bs (omega (arith, n)) c c') [
        | inr found ↦ inr found
        | inl (same, rest) ↦
            elim (link-SameContent prev prev' hash' a b
              (subst (λ h. IsLink sha256 hmac key prev h a) same l) l') [
                | inr found ↦ inr found
                | inl (before, content) ↦ inl (before, (content, rest))
              ]
      ]

-- Two logs that `verify` accepts with the same head and the same number of records hold the same
-- records, in the same order: under every key but `mac` each of them has the same text as the other.
-- Else two different texts with the same SHA-256 are found.
pub verify-SameRecords :
    (sha256 : Text → Text) (hmac hmac' : Text → Text → Text) (key key' : Text) (log log' : AuditLog)
    (disk disk' : Disk) (r r' : VerifyResult)
    → verify sha256 hmac key log disk ≡ ok r
    → verify sha256 hmac' key' log' disk' ≡ ok r'
    → r.ok_ ≡ true
    → r'.ok_ ≡ true
    → r.head ≡ r'.head
    → r.records ≡ r'.records
    → SameRecords
        (records_of (lines_of sha256 hmac key log disk))
        (records_of (lines_of sha256 hmac' key' log' disk'))
      ⊎ Collision sha256
verify-SameRecords sha256 hmac hmac' key key' log log' disk disk' r r' e e' t t' same count =
    let (_, chain, n) = verify_sound sha256 hmac key log disk r e t in
    let (_, chain', n') = verify_sound sha256 hmac' key' log' disk' r' e' t' in
    elim (chains-SameRecords sha256 hmac hmac' key key' genesis genesis r'.head _ _
      (sym n ∙ count ∙ n') (rw (← same) chain) chain') [
        | inl both ↦ inl both.1
        | inr found ↦ inr found
      ]
