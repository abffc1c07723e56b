-- ===== src/Export/Pack.antt =====
-- What a pack of mcp/src/compliance_mcp/evidence_export.py holds.
use regulatory_compliance_he.Prelude.{
  Text, lit, ◌≡◌, ◌⊎◌, refl, sym, ap, ◌∙◌, inl, inr, Option, some, false, not, List, [], ◌∷◌, ◌++◌,
  arith, ◌==◌, eq_iff, eq_refl, subst, All, All-map, keep, Bool-cases, ok, >>=-eq-ok,
}
use regulatory_compliance_he.Prelude.Map.{Dict, get, put, get-put, get-put_self}
use regulatory_compliance_he.Prelude.Sorted.{in_order, keep-in_order, get-in_order}
use regulatory_compliance_he.Json.{Json}
use regulatory_compliance_he.Json.Pretty.{pretty}
use regulatory_compliance_he.Models.{Decision, Draft, PolicyVersionRef, EvidenceManifest}
use regulatory_compliance_he.Export.{
  policy_path, sums_name, checked_content, add_policies, first_files, with_cover, with_sums,
  cover_of, sums_of, pack_of, build_pack,
}
use regulatory_compliance_he.Export.Approved.{checked_content-IsIntact, build_pack_parts}
use regulatory_compliance_he.Export.Cover.{IsCover, cover_of-IsCover, AreSums, sums_of-AreSums}

-- The files that do not stand under `policies/`.
apart :
    (ref : PolicyVersionRef)
    → ((policy_path ref == lit "index.md") ≡ false)
      × ((policy_path ref == lit "manifest.json") ≡ false)
      × ((policy_path ref == lit "audit-excerpt.jsonl") ≡ false)
      × ((policy_path ref == lit "COVER.json") ≡ false)
      × ((policy_path ref == sums_name) ≡ false)
unfolding lit ◌==◌
apart ref = (refl, refl, refl, refl, refl)

policy_names :
    (ref : PolicyVersionRef)
    → ((sums_name == policy_path ref) ≡ false) × ((lit "COVER.json" == policy_path ref) ≡ false)
unfolding lit ◌==◌
policy_names ref = (refl, refl)

index_names :
    ((sums_name == lit "index.md") ≡ false) × ((lit "COVER.json" == lit "index.md") ≡ false)
unfolding lit ◌==◌
index_names = (refl, refl)

manifest_names :
    ((sums_name == lit "manifest.json") ≡ false)
    × ((lit "COVER.json" == lit "manifest.json") ≡ false)
unfolding lit ◌==◌
manifest_names = (refl, refl)

sums_not_cover : (sums_name == lit "COVER.json") ≡ false
unfolding lit ◌==◌
sums_not_cover = refl

cover_not_sums : (lit "COVER.json" == sums_name) ≡ false
unfolding lit ◌==◌
cover_not_sums = refl

module _ (sha256 : Text → Text) (manifest_json : EvidenceManifest → Text)
    (read : Text → Option Text) where
  -- A file that does not stand under `policies/` is left alone.
  get-add_policies :
      (refs : List PolicyVersionRef) (files more : Dict Text) (name : Text)
      → ((ref : PolicyVersionRef) → (policy_path ref == name) ≡ false)
      → add_policies sha256 manifest_json read refs files ≡ ok more
      → get more name ≡ get files name
  unfolding add_policies
  get-add_policies [] files more name other h = ap (λ (d : Dict Text). get d name) (cc h)
  get-add_policies (ref ∷ refs) files more name other h =
      let (next, e, rest) =
        >>=-eq-ok (checked_content sha256 manifest_json read ref (read ref.source) files)
          (λ f. add_policies sha256 manifest_json read refs f) h in
      let (content, found, same, put_) =
        checked_content-IsIntact sha256 manifest_json read ref files next e in
      get-add_policies refs next more name other rest
      ∙ ap (λ (d : Dict Text). get d name) put_
      ∙ get-put files (policy_path ref) name content
      ∙ rw (other ref) refl

  -- The file at a path has the hash that one of the references to this path records.
  abbrev pub HasHash : Text → Text → List PolicyVersionRef → Type 0
  HasHash path content [] = ⊥
  HasHash path content (ref ∷ refs) =
      ((policy_path ref ≡ path) × (sha256 content ≡ ref.sha256)) ⊎ HasHash path content refs

  abbrev pub IsIncluded : Dict Text → List PolicyVersionRef → PolicyVersionRef → Type 0
  IsIncluded pack refs ref =
      (content : Text) × (get pack (policy_path ref) ≡ some content)
      × HasHash (policy_path ref) content refs

  -- A file under `policies/` stays, or is replaced by one that the references record.
  add_policies-HasHash :
      (refs : List PolicyVersionRef) (files more : Dict Text) (path old : Text)
      → add_policies sha256 manifest_json read refs files ≡ ok more
      → get files path ≡ some old
      → (content : Text) × (get more path ≡ some content)
        × ((content ≡ old) ⊎ HasHash path content refs)
  unfolding add_policies
  add_policies-HasHash [] files more path old h g =
      (old, ap (λ (d : Dict Text). get d path) (sym (cc h)) ∙ g, inl refl)
  add_policies-HasHash (ref ∷ refs) files more path old h g =
      let (next, e, rest) =
        >>=-eq-ok (checked_content sha256 manifest_json read ref (read ref.source) files)
          (λ f. add_policies sha256 manifest_json read refs f) h in
      let (content, found, same, put_) =
        checked_content-IsIntact sha256 manifest_json read ref files next e in
      let now =
        ap (λ (d : Dict Text). get d path) put_ ∙ get-put files (policy_path ref) path content in
      elim (Bool-cases (policy_path ref == path)) [
        | inl p ↦
            let (last, g', from) =
              add_policies-HasHash refs next more path content rest (now ∙ rw p refl) in
            (
              last,
              g',
              inr (elim from [
                | inl e' ↦ inl ((eq_iff (policy_path ref) path).0 p, rw e' same)
                | inr deep ↦ inr deep
              ]),
            )
        | inr p ↦
            let (last, g', from) =
              add_policies-HasHash refs next more path old rest (now ∙ rw p g) in
            (last, g', elim from [ inl e' ↦ inl e' | inr deep ↦ inr (inr deep) ])
      ]

  -- Every reference is served by a file.
  add_policies-IsIncluded :
      (refs : List PolicyVersionRef) (files more : Dict Text)
      → add_policies sha256 manifest_json read refs files ≡ ok more
      → All (IsIncluded more refs) refs
  unfolding add_policies
  add_policies-IsIncluded [] files more h = tt
  add_policies-IsIncluded (ref ∷ refs) files more h =
      let (next, e, rest) =
        >>=-eq-ok (checked_content sha256 manifest_json read ref (read ref.source) files)
          (λ f. add_policies sha256 manifest_json read refs f) h in
      let (content, found, same, put_) =
        checked_content-IsIntact sha256 manifest_json read ref files next e in
      let (last, g, from) = add_policies-HasHash refs next more (policy_path ref) content rest (
        ap (λ (d : Dict Text). get d (policy_path ref)) put_
        ∙ get-put_self files (policy_path ref) content) in
      (
        (last, g, elim from [ inl e' ↦ inl (refl, rw e' same) | inr deep ↦ inr deep ]),
        All-map (IsIncluded more refs) (IsIncluded more (ref ∷ refs)) (λ r i. (i.0, i.1, inr i.2))
            refs (add_policies-IsIncluded refs next more rest),
      )

  abbrev pub IsOther : Text × Text → Type 0
  IsOther m = (m.0 == sums_name) ≡ false

  put-IsOther :
      (d : Dict Text) (k v : Text)
      → (k == sums_name) ≡ false
      → All IsOther d
      → All IsOther (put d k v)
  unfolding put
  put-IsOther [] k v e h = (e, tt)
  put-IsOther ((j, w) ∷ d) k v e (h, hs) = elim (Bool-cases (j == k)) [
    | inl f ↦ rw f (h, hs)
    | inr f ↦ rw f (h, put-IsOther d k v e hs)
  ]

  add_policies-IsOther :
      (refs : List PolicyVersionRef) (files more : Dict Text)
      → add_policies sha256 manifest_json read refs files ≡ ok more
      → All IsOther files
      → All IsOther more
  unfolding add_policies
  add_policies-IsOther [] files more h o = subst (All IsOther) (cc h) o
  add_policies-IsOther (ref ∷ refs) files more h o =
      let (next, e, rest) =
        >>=-eq-ok (checked_content sha256 manifest_json read ref (read ref.source) files)
          (λ f. add_policies sha256 manifest_json read refs f) h in
      let (content, found, same, put_) =
        checked_content-IsIntact sha256 manifest_json read ref files next e in
      let (a, b, c, d, apart_) = apart ref in
      add_policies-IsOther refs next more rest
        (subst (All IsOther) (sym put_) (put-IsOther files (policy_path ref) content apart_ o))

  first_files-IsOther :
      (draft : Draft) (manifest : EvidenceManifest) (audit_lines : List Text)
      → All IsOther (first_files sha256 manifest_json read draft manifest audit_lines)
  unfolding first_files lit ◌==◌
  first_files-IsOther draft manifest audit_lines = (refl, (refl, (refl, tt)))

  get-first_files :
      (draft : Draft) (manifest : EvidenceManifest) (audit_lines : List Text)
      → (get (first_files sha256 manifest_json read draft manifest audit_lines) (lit "index.md")
          ≡ some draft.body)
        × (get
              (first_files sha256 manifest_json read draft manifest audit_lines)
              (lit "manifest.json")
            ≡ some (manifest_json manifest))
  unfolding first_files get lit ◌==◌
  get-first_files draft manifest audit_lines = (refl, refl)

  -- The files of a pack apart from the sums, in order.
  keep-put_sums :
      (d : Dict Text) (v : Text)
      → All IsOther d
      → keep (λ m. not (m.0 == sums_name)) (put d sums_name v) ≡ d
  unfolding keep put
  keep-put_sums [] v h = rw (eq_refl sums_name) refl
  keep-put_sums ((j, w) ∷ d) v (h, hs) = ground (arith, h, keep-put_sums d v hs)

  module _ (draft : Draft) (decision : Decision) (manifest : EvidenceManifest)
      (audit_lines : List Text) (exporter exported_at : Text) where
    -- The pack holds the approved text, the manifest and the cover, a document for each policy version
    -- with a hash that the manifest records for it, and the sums of all its other files in their order.
    abbrev pub IsSealed : Dict Text → Type 0
    IsSealed pack =
        (get pack (lit "index.md") ≡ some draft.body)
        × (get pack (lit "manifest.json") ≡ some (manifest_json manifest))
        × ((cover_ : Json) × (get pack (lit "COVER.json") ≡ some (pretty 0 cover_ ++ lit "\n"))
            × IsCover draft decision manifest exporter exported_at cover_)
        × All (IsIncluded pack manifest.policy_versions) manifest.policy_versions
        × ((sums : Text) × (get pack (lit "SHA256SUMS") ≡ some sums)
            × AreSums sha256 (keep (λ m. not (m.0 == lit "SHA256SUMS")) pack) sums)

    abbrev cover : Json
    cover = cover_of draft decision manifest exporter exported_at

    abbrev pub sealed : Dict Text → Dict Text
    sealed files =
        in_order
          (with_sums sha256 manifest_json read (with_cover sha256 manifest_json read cover files))

    get-sealed :
        (files : Dict Text) (name : Text)
        → (sums_name == name) ≡ false
        → (lit "COVER.json" == name) ≡ false
        → get (sealed files) name ≡ get files name
    get-sealed files name e f =
        let covered = with_cover sha256 manifest_json read cover files in
        let sums = sums_of sha256 manifest_json read (in_order covered) in
        get-in_order (put covered sums_name sums) name
        ∙ get-put covered sums_name name sums
        ∙ rw e (get-put files (lit "COVER.json") name (pretty 0 cover ++ lit "\n") ∙ rw f refl)

    get-sealed_with_cover :
        (files : Dict Text)
        → get (sealed files) (lit "COVER.json") ≡ some (pretty 0 cover ++ lit "\n")
    get-sealed_with_cover files =
        let covered = with_cover sha256 manifest_json read cover files in
        let sums = sums_of sha256 manifest_json read (in_order covered) in
        get-in_order (put covered sums_name sums) (lit "COVER.json")
        ∙ get-put covered sums_name (lit "COVER.json") sums
        ∙ rw sums_not_cover (get-put_self files (lit "COVER.json") (pretty 0 cover ++ lit "\n"))

    get-sealed_with_sums :
        (files : Dict Text)
        → All IsOther files
        → get (sealed files) sums_name
          ≡ some (
              sums_of sha256 manifest_json read (keep (λ m. not (m.0 == sums_name)) (sealed files)))
    get-sealed_with_sums files o =
        let covered = with_cover sha256 manifest_json read cover files in
        let sums = sums_of sha256 manifest_json read (in_order covered) in
        get-in_order (put covered sums_name sums) sums_name
        ∙ get-put_self covered sums_name sums
        ∙ ap (λ (d : Dict Text). some (sums_of sha256 manifest_json read d))
            (sym (
              keep-in_order (λ m. not (m.0 == sums_name)) (put covered sums_name sums)
              ∙ ap (λ (d : Dict Text). in_order d)
                  (keep-put_sums covered sums (
                    put-IsOther files (lit "COVER.json") (pretty 0 cover ++ lit "\n") cover_not_sums
                      o))))

    add_policies-IsSealed :
        (files : Dict Text)
        → add_policies sha256 manifest_json read manifest.policy_versions
            (first_files sha256 manifest_json read draft manifest audit_lines)
          ≡ ok files
        → IsSealed (sealed files)
    add_policies-IsSealed files h =
        let first = first_files sha256 manifest_json read draft manifest audit_lines in
        let refs = manifest.policy_versions in
        let (index_, manifest_) = get-first_files draft manifest audit_lines in
        (
          get-sealed files (lit "index.md") index_names.0 index_names.1
              ∙ get-add_policies refs first files (lit "index.md") (λ ref. (apart ref).0) h
              ∙ index_,
          get-sealed files (lit "manifest.json") manifest_names.0 manifest_names.1
              ∙ get-add_policies refs first files (lit "manifest.json") (λ ref. (apart ref).1) h
              ∙ manifest_,
          (
            cover,
            get-sealed_with_cover files,
            cover_of-IsCover draft decision manifest exporter exported_at,
          ),
          All-map (IsIncluded files refs) (IsIncluded (sealed files) refs)
              (λ ref i. (
                i.0,
                get-sealed files (policy_path ref) (policy_names ref).0 (policy_names ref).1 ∙ i.1,
                i.2,
              ))
              refs (add_policies-IsIncluded refs first files h),
          (
            sums_of sha256 manifest_json read (keep (λ m. not (m.0 == sums_name)) (sealed files)),
            get-sealed_with_sums files (
                add_policies-IsOther refs first files h
                  (first_files-IsOther draft manifest audit_lines)),
            sums_of-AreSums sha256 manifest_json read
                (keep (λ m. not (m.0 == sums_name)) (sealed files)),
          ),
        )

-- What a pack holds: the text that was approved; the manifest; a cover with the draft, its title, the
-- control, the period, the hash of the manifest, who asked, who approved, when and with which note, and
-- who exported when; for each policy version of the manifest a document with a hash that the manifest
-- records under that file name; and in `SHA256SUMS`, for each other file in the order of the pack, a
-- line with the hash of its content and its name.
pub build_pack-IsSealed :
    (sha256 : Text → Text) (manifest_json : EvidenceManifest → Text) (read : Text → Option Text)
    (draft : Draft) (manifest : EvidenceManifest) (audit_lines : List Text)
    (exporter exported_at : Text) (pack : Dict Text)
    → build_pack sha256 manifest_json read draft manifest audit_lines exporter exported_at ≡ ok pack
    → (decision : Decision) × (draft.decision ≡ some decision)
      × IsSealed sha256 manifest_json read draft decision manifest audit_lines exporter exported_at
          pack
unfolding pack_of
build_pack-IsSealed sha256 manifest_json read draft manifest audit_lines exporter exported_at pack
      h =
    let (kind, status, (decision, o, p)) =
      build_pack_parts sha256 manifest_json read draft manifest audit_lines exporter exported_at
        pack h in
    let (files, e, same) =
      >>=-eq-ok
        (add_policies sha256 manifest_json read manifest.policy_versions
          (first_files sha256 manifest_json read draft manifest audit_lines))
        (λ f. ok (
          sealed sha256 manifest_json read draft decision manifest audit_lines exporter exported_at
            f))
        p in
    let same' : sealed sha256 manifest_json read draft decision manifest audit_lines exporter
          exported_at files
        ≡ pack =
      cc same in
    (
      decision,
      o,
      subst
          (IsSealed sha256 manifest_json read draft decision manifest audit_lines exporter
            exported_at)
          same'
          (add_policies-IsSealed sha256 manifest_json read draft decision manifest audit_lines
            exporter exported_at files e),
    )
