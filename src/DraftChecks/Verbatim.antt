-- ===== src/DraftChecks/Verbatim.antt =====
-- What `check_draft` of mcp/src/compliance_mcp/draft_checks.py lets through.
use regulatory_compliance_he.Prelude.{
  Text, ℕ, ◌≡◌, ◌↔◌, refl, ap, ◌∙◌, inl, inr, Option, none, some, Bool, true, false, List, [], ◌∷◌,
  map, keep, any, arith, All, Bool-cases, Result, ok, err, Result-cases, Option-cases, ◌==◌,
  if◌then◌else◌,
}
use regulatory_compliance_he.Models.{
  DraftKind, policy_mapping, evidence_pack_index, control_finding_note, attestation_escalation,
  Release,
}
use regulatory_compliance_he.DraftChecks.Patterns.{quote_cells, normalise, hashes, index_title}
use regulatory_compliance_he.DraftChecks.{
  CheckError, draft_rejected, no_table, no_release, is_nil, known, corpus_of, is_verbatim,
  missing_from, check_missing, check_policy_mapping, check_hash, check_evidence_pack_index,
  check_draft,
}

check_missing-eq-ok :
    (corpus quotes : List Text)
    → (check_missing (missing_from corpus quotes) ≡ ok tt)
      ↔ All (λ q. is_verbatim corpus q ≡ true) quotes
unfolding check_missing missing_from keep
check_missing-eq-ok corpus [] = (λ e. tt, λ h. refl)
check_missing-eq-ok corpus (q ∷ quotes) = elim (Bool-cases (is_verbatim corpus q)) [
  | inl e ↦
      let rest = check_missing-eq-ok corpus quotes in rw e (λ x. (refl, rest.0 x), λ h. rest.1 h.1)
  | inr e ↦ rw e (λ x. absurd (cc x), λ h. absurd (cc (h.0)))
]

-- A policy mapping is accepted exactly if its table has a quote, one of its related releases is
-- known, and every quote of the table stands verbatim, up to white space, in the text of one of them.
pub check_policy_mapping-eq-ok :
    (body : Text) (related_ids : List Text) (lookup_release : Text → Option Release)
    → (check_policy_mapping body related_ids lookup_release ≡ ok tt) ↔ (
        (is_nil (quote_cells body) ≡ false)
        × (is_nil (known lookup_release related_ids) ≡ false)
        × All
            (λ q. is_verbatim (corpus_of lookup_release related_ids) q ≡ true)
            (map normalise (quote_cells body)))
unfolding check_policy_mapping corpus_of
check_policy_mapping-eq-ok body related_ids lookup_release =
    go (quote_cells body) (known lookup_release related_ids)
  where
    go :
        (quotes : List Text) (releases : List Release)
        → let corpus = map (λ (r : Release). normalise r.text) releases in
          ((if is_nil (map normalise quotes)
              then err (draft_rejected no_table)
              else if is_nil corpus
              then err (draft_rejected no_release)
              else check_missing (missing_from corpus (map normalise quotes)))
            ≡ ok tt)
          ↔ ((is_nil quotes ≡ false)
              × (is_nil releases ≡ false)
              × All (λ q. is_verbatim corpus q ≡ true) (map normalise quotes))
    go [] releases = (λ e. absurd (cc e), λ h. absurd (cc (h.0)))
    go (q ∷ quotes) [] = (λ e. absurd (cc e), λ h. absurd (cc (h.1)))
    go (q ∷ quotes) (r ∷ releases) =
        let missing =
          check_missing-eq-ok (map (λ (x : Release). normalise x.text) (r ∷ releases))
            (map normalise (q ∷ quotes)) in
        (λ e. (refl, refl, missing.0 e), λ h. missing.1 h.2)

-- What makes an evidence index acceptable: its title names a control and a period, and its body
-- cites the hash that the evidence of that control and period has now.
pub record CitesEvidence (wide : ℕ → Bool) (body title : Text)
    (recompute_hash : Text → Text → Text → Result CheckError (Option Text)) : Type 0 where
  pub control : Text
  pub start : Text
  pub end : Text
  pub actual : Text
  pub titled : index_title title ≡ some (control, start, end)
  pub recomputed : recompute_hash control start end ≡ ok (some actual)
  pub cited : any (λ h. h == actual) (hashes wide body) ≡ true

check_hash-eq-ok :
    (cited : List Text) (control start end : Text) (actual : Option Text)
    → check_hash cited control start end actual ≡ ok tt
    → (h : Text) × (actual ≡ some h) × (any (λ x. x == h) cited ≡ true)
unfolding check_hash
check_hash-eq-ok cited control start end none e = absurd (cc e)
check_hash-eq-ok cited control start end (some h) e = (h, refl, ground (arith, e))

any-nil : (p : Text → Bool) (xs : List Text) → any p xs ≡ true → is_nil xs ≡ false
unfolding any
any-nil p [] e = absurd (cc e)
any-nil p (x ∷ xs) e = refl

-- An evidence index is accepted exactly if it cites its evidence: the title names a control and a
-- period, and the body cites the hash that their evidence has now.
pub check_evidence_pack_index-eq-ok :
    (wide : ℕ → Bool) (body title : Text)
    (recompute_hash : Text → Text → Text → Result CheckError (Option Text))
    → (check_evidence_pack_index wide body title recompute_hash ≡ ok tt)
      ↔ CitesEvidence wide body title recompute_hash
unfolding check_evidence_pack_index check_hash
check_evidence_pack_index-eq-ok wide body title recompute_hash = (to, from)
  where
    to :
        check_evidence_pack_index wide body title recompute_hash ≡ ok tt
        → CitesEvidence wide body title recompute_hash
    to e = elim (Option-cases (index_title title)) [
      | inl none_found ↦ absurd (ground (arith, e, none_found))
      | inr ((control, start, end), titled) ↦
          elim (Result-cases (recompute_hash control start end)) [
            | inr (x, failed) ↦ absurd (ground (arith, e, titled, failed))
            | inl (actual, recomputed) ↦
                let passed : check_hash (hashes wide body) control start end actual ≡ ok tt =
                  ground (arith, e, titled, recomputed) in
                let (h, found, cited) =
                  check_hash-eq-ok (hashes wide body) control start end actual passed in
                record {
                  control = control;
                  start = start;
                  end = end;
                  actual = h;
                  titled = titled;
                  recomputed = recomputed ∙ ap ok found;
                  cited = cited;
                }
          ]
    ]

    from :
        CitesEvidence wide body title recompute_hash
        → check_evidence_pack_index wide body title recompute_hash ≡ ok tt
    from h =
        rw
          (
            check_evidence_pack_index,
            h.titled,
            any-nil _ (hashes wide body) h.cited,
            h.recomputed,
            check_hash,
            h.cited,
          )
          refl

-- What a draft of a kind has to satisfy.
abbrev pub IsChecked :
    (ℕ → Bool)
    → DraftKind
    → Text
    → Text
    → List Text
    → (Text → Option Release)
    → (Text → Text → Text → Result CheckError (Option Text))
    → Type 0
IsChecked wide policy_mapping title body related_ids lookup_release recompute_hash =
    (is_nil (quote_cells body) ≡ false)
    × (is_nil (known lookup_release related_ids) ≡ false)
    × All (λ q. is_verbatim (corpus_of lookup_release related_ids) q ≡ true)
        (map normalise (quote_cells body))
IsChecked wide evidence_pack_index title body related_ids lookup_release recompute_hash =
    CitesEvidence wide body title recompute_hash
IsChecked wide _ title body related_ids lookup_release recompute_hash = Unit

-- The content check accepts exactly: a policy mapping whose table has a quote, with a known related
-- release, and with every quote verbatim, up to white space, in the text of a related release; an
-- evidence index that cites the hash that its evidence has now; and every draft of another kind.
pub check_draft-eq-ok :
    (wide : ℕ → Bool) (kind : DraftKind) (title body : Text) (related_ids : List Text)
    (lookup_release : Text → Option Release)
    (recompute_hash : Text → Text → Text → Result CheckError (Option Text))
    → (check_draft wide kind title body related_ids lookup_release recompute_hash ≡ ok tt)
      ↔ IsChecked wide kind title body related_ids lookup_release recompute_hash
unfolding check_draft
check_draft-eq-ok wide policy_mapping title body related_ids lookup_release recompute_hash =
    check_policy_mapping-eq-ok body related_ids lookup_release
check_draft-eq-ok wide evidence_pack_index title body related_ids lookup_release recompute_hash =
    check_evidence_pack_index-eq-ok wide body title recompute_hash
check_draft-eq-ok wide control_finding_note title body related_ids lookup_release recompute_hash =
    (λ e. tt, λ h. refl)
check_draft-eq-ok wide attestation_escalation title body related_ids lookup_release recompute_hash =
    (λ e. tt, λ h. refl)
