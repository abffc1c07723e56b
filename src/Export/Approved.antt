-- ===== src/Export/Approved.antt =====
-- When mcp/src/compliance_mcp/evidence_export.py gives a pack.
use regulatory_compliance_he.Prelude.{
  Text, ◌≡◌, ◌↔◌, refl, ap, ◌∙◌, inl, inr, Option, some, true, List, [], ◌∷◌, arith, ◌==◌, eq_iff,
  All, Bool-cases, Option-cases, ok, >>=-eq-ok,
}
use regulatory_compliance_he.Prelude.Map.{Dict, put}
use regulatory_compliance_he.Prelude.Sorted.{in_order}
use regulatory_compliance_he.Models.{
  DraftKind, evidence_pack_index, policy_mapping, control_finding_note, attestation_escalation,
  DraftStatus, pending, approved, rejected, Decision, Draft, PolicyVersionRef, EvidenceManifest,
}
use regulatory_compliance_he.Export.{
  is_index, approval, policy_path, checked_content, add_policies, first_files, cover_of, with_cover,
  with_sums, pack_of, build_pack,
}

module _ (sha256 : Text → Text) (manifest_json : EvidenceManifest → Text)
    (read : Text → Option Text) where
  -- The document can be read and has the hash that the manifest records.
  abbrev pub IsIntact : PolicyVersionRef → Type 0
  IsIntact ref = (content : Text) × (read ref.source ≡ some content) × (sha256 content ≡ ref.sha256)

  pub checked_content-IsIntact :
      (ref : PolicyVersionRef) (files more : Dict Text)
      → checked_content sha256 manifest_json read ref (read ref.source) files ≡ ok more
      → (content : Text) × (read ref.source ≡ some content)
        × (sha256 content ≡ ref.sha256)
        × (more ≡ put files (policy_path ref) content)
  unfolding checked_content
  checked_content-IsIntact ref files more h = elim (Option-cases (read ref.source)) [
    | inl e ↦ absurd (ground (arith, e, h))
    | inr (content, e) ↦ elim (Bool-cases (sha256 content == ref.sha256)) [
      | inl f ↦ (content, e, (eq_iff (sha256 content) ref.sha256).0 f, ground (arith, e, f, h))
      | inr f ↦ absurd (ground (arith, e, f, h))
    ]
  ]

  IsIntact-checked_content :
      (ref : PolicyVersionRef) (files : Dict Text)
      → IsIntact ref
      → (more : Dict Text) × (checked_content sha256 manifest_json read ref (read ref.source) files
          ≡ ok more)
  unfolding checked_content
  IsIntact-checked_content ref files (content, e, f) = (
    put files (policy_path ref) content,
    ground (arith, e, f, eq_iff (sha256 content) ref.sha256),
  )

  add_policies-IsIntact :
      (refs : List PolicyVersionRef) (files more : Dict Text)
      → add_policies sha256 manifest_json read refs files ≡ ok more
      → All IsIntact refs
  unfolding add_policies
  add_policies-IsIntact [] files more h = tt
  add_policies-IsIntact (ref ∷ refs) files more h =
      let (next, e, rest) =
        >>=-eq-ok (checked_content sha256 manifest_json read ref (read ref.source) files)
          (λ f. add_policies sha256 manifest_json read refs f) h in
      let (content, found, same, put_) = checked_content-IsIntact ref files next e in
      ((content, found, same), add_policies-IsIntact refs next more rest)

  IsIntact-add_policies :
      (refs : List PolicyVersionRef) (files : Dict Text)
      → All IsIntact refs
      → (more : Dict Text) × (add_policies sha256 manifest_json read refs files ≡ ok more)
  unfolding add_policies
  IsIntact-add_policies [] files h = (files, refl)
  IsIntact-add_policies (ref ∷ refs) files (h, hs) =
      let (next, e) = IsIntact-checked_content ref files h in
      let (more, f) = IsIntact-add_policies refs next hs in (more, rw e f)

  -- An evidence index that is approved, with a decision, and whose documents are all intact.
  abbrev pub IsExportable : Draft → EvidenceManifest → Type 0
  IsExportable draft manifest =
      (draft.kind ≡ evidence_pack_index)
      × (draft.status ≡ approved)
      × ((decision : Decision) × (draft.decision ≡ some decision))
      × All IsIntact manifest.policy_versions

  is_index_lem : (k : DraftKind) → is_index k ≡ true → k ≡ evidence_pack_index
  is_index_lem evidence_pack_index h = refl
  is_index_lem policy_mapping h = absurd (cc h)
  is_index_lem control_finding_note h = absurd (cc h)
  is_index_lem attestation_escalation h = absurd (cc h)

  approval_lem :
      (s : DraftStatus) (o : Option Decision) (d : Decision)
      → approval s o ≡ some d
      → (s ≡ approved) × (o ≡ some d)
  unfolding approval
  approval_lem approved o d h = (refl, h)
  approval_lem pending o d h = absurd (cc h)
  approval_lem rejected o d h = absurd (cc h)

  -- The parts of a pack that was given.
  pub build_pack_parts :
      (draft : Draft) (manifest : EvidenceManifest) (audit_lines : List Text)
      (exporter exported_at : Text) (pack : Dict Text)
      → build_pack sha256 manifest_json read draft manifest audit_lines exporter exported_at
        ≡ ok pack
      → (draft.kind ≡ evidence_pack_index)
        × (draft.status ≡ approved)
        × ((decision : Decision) × (draft.decision ≡ some decision)
            × (pack_of sha256 manifest_json read draft decision manifest audit_lines exporter
                  exported_at
                ≡ ok pack))
  unfolding build_pack
  build_pack_parts draft manifest audit_lines exporter exported_at pack h =
      elim (Bool-cases (is_index draft.kind)) [
        | inr e ↦ absurd (ground (arith, e, h))
        | inl e ↦ elim (Option-cases (approval draft.status draft.decision)) [
          | inl f ↦ absurd (ground (arith, e, f, h))
          | inr (d, f) ↦
              let (s, o) = approval_lem draft.status draft.decision d f in
              (is_index_lem draft.kind e, s, (d, o, ground (arith, e, f, h)))
        ]
      ]

module _ (sha256 : Text → Text) (manifest_json : EvidenceManifest → Text)
    (read : Text → Option Text) (draft : Draft) (manifest : EvidenceManifest)
    (audit_lines : List Text) (exporter exported_at : Text) where
  build_pack-eq-pack_of :
      (decision : Decision)
      → is_index draft.kind ≡ true
      → approval draft.status draft.decision ≡ some decision
      → build_pack sha256 manifest_json read draft manifest audit_lines exporter exported_at
        ≡ pack_of sha256 manifest_json read draft decision manifest audit_lines exporter exported_at
  unfolding build_pack
  build_pack-eq-pack_of decision k o = ground (arith, k, o)

  pack_of_total :
      (decision : Decision)
      → All (IsIntact sha256 manifest_json read) manifest.policy_versions
      → (pack : Dict Text) × (pack_of sha256 manifest_json read draft decision manifest audit_lines
            exporter exported_at
          ≡ ok pack)
  unfolding pack_of
  pack_of_total decision intact =
      let (files, e) =
        IsIntact-add_policies sha256 manifest_json read manifest.policy_versions
          (first_files sha256 manifest_json read draft manifest audit_lines) intact in
      (
        in_order (
            with_sums sha256 manifest_json read (
              with_cover sha256 manifest_json read
                (cover_of draft decision manifest exporter exported_at) files)),
        rw e refl,
      )

-- A pack is given exactly for an evidence index that a person has approved and whose policy documents
-- still have the hashes that the manifest records.
pub build_pack-eq-ok :
    (sha256 : Text → Text) (manifest_json : EvidenceManifest → Text) (read : Text → Option Text)
    (draft : Draft) (manifest : EvidenceManifest) (audit_lines : List Text)
    (exporter exported_at : Text)
    → ((pack : Dict Text) × (build_pack sha256 manifest_json read draft manifest audit_lines
            exporter exported_at
          ≡ ok pack))
      ↔ IsExportable sha256 manifest_json read draft manifest
unfolding pack_of approval
build_pack-eq-ok sha256 manifest_json read draft manifest audit_lines exporter exported_at = (
  λ (pack, h).
      let (kind, status, (decision, o, p)) =
        build_pack_parts sha256 manifest_json read draft manifest audit_lines exporter exported_at
          pack h in
      let (files, e, same) =
        >>=-eq-ok
          (add_policies sha256 manifest_json read manifest.policy_versions
            (first_files sha256 manifest_json read draft manifest audit_lines))
          _ p in
      (
        kind,
        status,
        (decision, o),
        add_policies-IsIntact sha256 manifest_json read manifest.policy_versions _ files e,
      ),
  λ (kind, status, (decision, o), intact).
      let (pack, e) =
        pack_of_total sha256 manifest_json read draft manifest audit_lines exporter exported_at
          decision intact in
      (
        pack,
        build_pack-eq-pack_of sha256 manifest_json read draft manifest audit_lines exporter
              exported_at decision (ap is_index kind)
              (ap (λ (t : DraftStatus). approval t draft.decision) status ∙ o)
            ∙ e,
      ),
)
