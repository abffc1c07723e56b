-- ===== src/Service/DraftOnly.antt =====
-- What the tools of mcp/src/compliance_mcp/service.py do to the drafts.
use regulatory_compliance_he.Prelude.{
  Text, ℕ, ◌≡◌, ◌⊎◌, refl, inl, inr, Bool, false, ◌||◌, List, [], ◌∷◌, ◌++◌, any, is_blank,
  Result-cases, Bool-cases,
}
use regulatory_compliance_he.Prelude.Map.{get}
use regulatory_compliance_he.Models.{
  User, Control, Ticket, EvidenceManifest, DraftKind, pending, Draft,
}
use regulatory_compliance_he.Drafts.{DraftStore, Stamp, has_id, to_row, insert, new_draft, create}
use regulatory_compliance_he.DraftChecks.{draft_rejected, recompute_error, check_draft}
use regulatory_compliance_he.DraftChecks.Verbatim.{IsChecked, check_draft-eq-ok}
use regulatory_compliance_he.Service.Request.{
  Request, policy_lookup, policy_get, policy_list, control_lookup, control_test_results,
  regulatory_releases, regulatory_release_get, ticket_search, attestations_due, evidence_bundle,
  draft_create, draft_list, draft_get, Config, Today,
}
use regulatory_compliance_he.Service.Create.{recompute_hash, created, checked, draft_create_body}
use regulatory_compliance_he.Service.Tools.{run_body}

module _ (sha256 : Text → Text) (manifest_json : EvidenceManifest → Text)
    (ticket_json : Ticket → Text) (control_json : Control → Text) (wide : ℕ → Bool)
    (c : Config) where
  -- A new row at the end: pending, undecided, by the caller, with the content asked for, which has
  -- passed the check for its kind.
  pub record IsQueued (user : User) (kind : DraftKind) (title body : Text) (related_ids : List Text)
      (drafts after : DraftStore) : Type 0 where
    pub draft : Draft
    pub queued : after ≡ drafts ++ to_row draft ∷ []
    pub new_id : any (has_id draft.draft_id) drafts ≡ false
    pub open_ : draft.status ≡ pending
    pub asked_by : draft.requester ≡ user.upn
    pub kind_kept : draft.kind ≡ kind
    pub body_kept : draft.body ≡ body
    pub hashed : draft.content_sha256 ≡ sha256 body
    pub content :
        IsChecked wide kind title body related_ids
          (get c.releases)
          (recompute_hash sha256 manifest_json ticket_json control_json wide c)

  -- What a request may do to the drafts: nothing, or queue one if it is `draft_create`.
  abbrev pub Leaves : Request → User → DraftStore → DraftStore → Type 0
  Leaves (draft_create kind title body related_ids) user drafts after =
      (after ≡ drafts) ⊎ IsQueued user kind title body related_ids drafts after
  Leaves _ user drafts after = after ≡ drafts

  create-Leaves :
      (user : User) (stamp : Stamp) (kind : DraftKind) (title body : Text) (related_ids : List Text)
      (drafts : DraftStore)
      → Leaves
          (draft_create kind title body related_ids)
          user
          drafts
          (draft_create_body sha256 manifest_json ticket_json control_json wide c user stamp kind
            title body related_ids drafts).1
  unfolding draft_create_body checked created create insert new_draft
  create-Leaves user stamp kind title body related_ids drafts =
      elim (Bool-cases (is_blank title || is_blank body)) [
        | inl e ↦ rw e (inl refl)
        | inr e ↦
            elim (Result-cases (
              check_draft wide kind title body related_ids (get c.releases)
                (recompute_hash sha256 manifest_json ticket_json control_json wide c))) [
                  | inl (x, passed) ↦
                      elim (Bool-cases (
                        any
                          (has_id
                            (new_draft sha256 stamp kind title body user.upn related_ids
                              []).draft_id)
                          drafts)) [
                            | inl taken ↦ rw (e, passed, taken) (inl refl)
                            | inr fresh ↦
                                rw (e, passed, fresh)
                                  (inr (record {
                                    draft =
                                        new_draft sha256 stamp kind title body user.upn related_ids
                                          [];
                                    queued = refl;
                                    new_id = fresh;
                                    open_ = refl;
                                    asked_by = refl;
                                    kind_kept = refl;
                                    body_kept = refl;
                                    hashed = refl;
                                    content =
                                        (check_draft-eq-ok wide kind title body related_ids
                                            (get c.releases)
                                            (recompute_hash sha256 manifest_json ticket_json
                                              control_json wide c)).0
                                          passed;
                                  }))
                          ]
                  | inr (draft_rejected m, failed) ↦ rw (e, failed) (inl refl)
                  | inr (recompute_error, failed) ↦ rw (e, failed) (inl refl)
                ]
      ]

  -- Of all tools only `draft_create` writes, and it changes no draft that is there: it leaves the
  -- drafts as they are, or adds one that is pending, undecided, in the caller's name and has passed
  -- the content check of its kind.
  pub run_body-Leaves :
      (request : Request) (user : User) (today : Today) (drafts : DraftStore)
      → Leaves request user drafts
          (run_body sha256 manifest_json ticket_json control_json wide c request user today
            drafts).1
  unfolding run_body
  run_body-Leaves (draft_create kind title body related_ids) user today drafts =
      create-Leaves user today.stamp kind title body related_ids drafts
  run_body-Leaves (policy_lookup q n) user today drafts = refl
  run_body-Leaves (policy_get p a) user today drafts = refl
  run_body-Leaves policy_list user today drafts = refl
  run_body-Leaves (control_lookup i q) user today drafts = refl
  run_body-Leaves (control_test_results i s e) user today drafts = refl
  run_body-Leaves (regulatory_releases s x) user today drafts = refl
  run_body-Leaves (regulatory_release_get i) user today drafts = refl
  run_body-Leaves (ticket_search q i s e) user today drafts = refl
  run_body-Leaves (attestations_due n d) user today drafts = refl
  run_body-Leaves (evidence_bundle i s e) user today drafts = refl
  run_body-Leaves (draft_list s) user today drafts = refl
  run_body-Leaves (draft_get i) user today drafts = refl
