-- ===== src/Review/Export/Traced.antt =====
-- What the export of mcp/src/compliance_mcp/review_cli.py leaves behind, by how it ends.
use regulatory_compliance_he.Prelude.{
  Text, ℕ, ◌≡◌, ◌⊎◌, inl, inr, refl, ap, subst, Option, none, some, false, List, ◌∷◌, ◌++◌, Result,
  ok, err, is_empty,
}
use regulatory_compliance_he.Prelude.Map.{Dict, put}
use regulatory_compliance_he.Json.{Json}
use regulatory_compliance_he.Models.{User, Ticket, Draft, EvidenceManifest}
use regulatory_compliance_he.Audit.Record.{Entry}
use regulatory_compliance_he.Audit.Writer.{AuditError, AuditLog, Disk, rotated_name}
use regulatory_compliance_he.Audit.Append.{write}
use regulatory_compliance_he.Audit.Walks.{records_of}
use regulatory_compliance_he.Audit.Preservation.{lines, IsLater, IsLog}
use regulatory_compliance_he.Audit.Rotation.{IsOf, IsWritten, write-IsWritten}
use regulatory_compliance_he.Directory.{DirectoryError, Directory, read_version}
use regulatory_compliance_he.Drafts
use regulatory_compliance_he.Service.Failure.{Failure}
use regulatory_compliance_he.Service.Evidence.{compute_manifest}
use regulatory_compliance_he.Export.{
  ExportError, export_refused, os_error, period_from_title, audit_lines_for, build_pack,
}
use regulatory_compliance_he.Export.Approved.{IsExportable, build_pack-eq-ok}
use regulatory_compliance_he.Review.{Refusal, refused, crashed, Crash, uncaught}
use regulatory_compliance_he.Review.Export.{
  ExportArgs, ExportWorld, ExportInput, exported_entry, export_refused_entry, built, with_manifest,
  with_period, with_draft, pack_for, export_wrote, export_versioned, export_recorded, export_closed,
  export,
}

module _ (sha256 : Text → Text) (hmac : Text → Text → Text)
    (parse_users : Text → Option (List User)) (manifest_json : EvidenceManifest → Text)
    (manifest_json_indented : EvidenceManifest → Text) (ticket_json : Ticket → Text)
    (read : Text → Option Text) (zip_bytes : Dict Text → ℕ) (log : AuditLog) (args : ExportArgs)
    (input : ExportInput) (mac_written : (k h : Text) → is_empty (hmac k h) ≡ false) where
  -- The log has one record of `e` more, behind which a marker may stand.
  abbrev pub IsRecordedOnce : Entry → ExportWorld → ExportWorld → Type 0
  IsRecordedOnce e w v =
      (rec : Dict Json) × (markers : List (Dict Json)) × (h : Text) × IsOf sha256 hmac log
        mac_written e rec
      × (records_of (lines log v.disk) ≡ records_of (lines log w.disk) ++ rec ∷ markers)
      × IsLog sha256 hmac log v.disk h

  -- The pack is one of the draft that the command names, with the manifest of its control and period.
  abbrev pub IsPackOf : Draft → EvidenceManifest → Dict Text → Type 0
  IsPackOf draft manifest pack =
      (Drafts.get input.drafts args.draft_id ≡ some draft)
      × ((control start end : Text) × (period_from_title draft.title ≡ some (control, start, end))
          × (compute_manifest sha256 manifest_json ticket_json input.systems control start end
              ≡ ok (some manifest)))
      × (build_pack sha256 manifest_json_indented read draft manifest
            (audit_lines_for args.draft_id input.log_file) args.exporter input.exported_at
          ≡ ok pack)

  built-IsPack :
      (manifest m : EvidenceManifest) (pack : Dict Text) (r : Result ExportError (Dict Text))
      → built sha256 hmac parse_users manifest_json manifest_json_indented ticket_json read
          zip_bytes log args input manifest r
        ≡ ok (m, pack)
      → (manifest ≡ m) × (r ≡ ok pack)
  built-IsPack manifest m pack (ok p) h = (cc h, cc h)
  built-IsPack manifest m pack (err (export_refused t)) h = absurd (cc h)
  built-IsPack manifest m pack (err os_error) h = absurd (cc h)

  with_manifest-IsPack :
      (draft : Draft) (control : Text) (r : Result Failure (Option EvidenceManifest))
      (m : EvidenceManifest) (pack : Dict Text)
      → with_manifest sha256 hmac parse_users manifest_json manifest_json_indented ticket_json read
          zip_bytes log args input draft control r
        ≡ ok (m, pack)
      → (r ≡ ok (some m))
        × (build_pack sha256 manifest_json_indented read draft m
              (audit_lines_for args.draft_id input.log_file)
              args.exporter
              input.exported_at
            ≡ ok pack)
  with_manifest-IsPack draft control (err e) m pack h = absurd (cc h)
  with_manifest-IsPack draft control (ok none) m pack h = absurd (cc h)
  with_manifest-IsPack draft control (ok (some manifest)) m pack h =
      let (same, p) = built-IsPack manifest m pack _ h in
      (
        ap (λ (x : EvidenceManifest). ok (some x)) same,
        subst
            (λ (x : EvidenceManifest).
              build_pack sha256 manifest_json_indented read draft x
                (audit_lines_for args.draft_id input.log_file) args.exporter input.exported_at
              ≡ ok pack)
            same p,
      )

  with_period-IsPack :
      (draft : Draft) (period : Option (Text × Text × Text)) (m : EvidenceManifest)
      (pack : Dict Text)
      → with_period sha256 hmac parse_users manifest_json manifest_json_indented ticket_json read
          zip_bytes log args input draft period
        ≡ ok (m, pack)
      → ((control start end : Text) × (period ≡ some (control, start, end))
          × (compute_manifest sha256 manifest_json ticket_json input.systems control start end
              ≡ ok (some m)))
        × (build_pack sha256 manifest_json_indented read draft m
              (audit_lines_for args.draft_id input.log_file)
              args.exporter
              input.exported_at
            ≡ ok pack)
  with_period-IsPack draft none m pack h = absurd (cc h)
  with_period-IsPack draft (some (control, start, end)) m pack h =
      let (e, p) = with_manifest-IsPack draft control _ m pack h in
      ((control, start, end, refl, e), p)

  with_draft-IsPack :
      (o : Option Draft) (m : EvidenceManifest) (pack : Dict Text)
      → Drafts.get input.drafts args.draft_id ≡ o
      → with_draft sha256 hmac parse_users manifest_json manifest_json_indented ticket_json read
          zip_bytes log args input o
        ≡ ok (m, pack)
      → (draft : Draft) × IsPackOf draft m pack
  with_draft-IsPack none m pack e h = absurd (cc h)
  with_draft-IsPack (some draft) m pack e h =
      let (period, p) = with_period-IsPack draft (period_from_title draft.title) m pack h in
      (draft, (e, period, p))

  wrote-IsRecordedOnce :
      (code : ℕ) (e : Entry) (r : Result AuditError (Dict Json) × Disk) (w v : ExportWorld)
      → IsWritten sha256 hmac log mac_written e w.disk r
      → let res =
          export_wrote sha256 hmac parse_users manifest_json manifest_json_indented ticket_json read
            zip_bytes log args input code r v in
        (res.0 ≡ ok code) × (res.1.packs ≡ v.packs) × IsRecordedOnce e w res.1
  wrote-IsRecordedOnce code e (ok x, disk) w v (rec, markers, h, done, same, grown, i) =
      (refl, refl, (rec, markers, h, same, grown, i))
  wrote-IsRecordedOnce code e (err x, disk) w v (rec, markers, h, done, same, grown, i) =
      absurd (cc done)

  -- A record with a version that can be read.
  versioned-IsRecordedOnce :
      (version : Text) (code : ℕ) (entry : Text → Entry)
      (r : Result DirectoryError Text × Directory) (w v : ExportWorld) (h : Text)
      → r.0 ≡ ok version
      → v.disk ≡ w.disk
      → IsLater (rotated_name log input.source.stamp) w.disk
      → IsLog sha256 hmac log w.disk h
      → let res =
          export_versioned sha256 hmac parse_users manifest_json manifest_json_indented ticket_json
            read zip_bytes log args input code entry r v in
        (res.0 ≡ ok code) × (res.1.packs ≡ v.packs) × IsRecordedOnce (entry version) w res.1
  versioned-IsRecordedOnce version code entry (err e, d) w v h p same later i = absurd (cc p)
  versioned-IsRecordedOnce version code entry (ok x, d) w v h p same later i =
      subst
        (λ (t : Text).
          let res =
            export_wrote sha256 hmac parse_users manifest_json manifest_json_indented ticket_json
              read zip_bytes log args input code
              (write sha256 hmac log input.source (entry x) v.disk) (record v { directory = d }) in
          (res.0 ≡ ok code) × (res.1.packs ≡ v.packs) × IsRecordedOnce (entry t) w res.1)
        (cc p)
        (wrote-IsRecordedOnce code (entry x) _ w (record v { directory = d })
          (rw same
            (write-IsWritten sha256 hmac log mac_written input.source (entry x) w.disk h later i)))

  -- Exit code 0: a pack was written, of a draft that may be exported, and noted as `ok`.
  abbrev pub IsExported : Text → ExportWorld → Result Crash ℕ × ExportWorld → Type 0
  IsExported version w res =
      (draft : Draft) × (manifest : EvidenceManifest) × (pack : Dict Text) × (res.0 ≡ ok 0)
      × IsPackOf draft manifest pack
      × IsExportable sha256 manifest_json_indented read draft manifest
      × (res.1.packs ≡ put w.packs args.zip_path pack)
      × IsRecordedOnce (exported_entry args (zip_bytes pack) manifest.manifest_sha256 version) w
          res.1

  -- Exit code 2: no pack was written, and one record says `denied`.
  abbrev pub IsRefused : Text → ExportWorld → Result Crash ℕ × ExportWorld → Type 0
  IsRefused version w res =
      (message : Text) × (res.0 ≡ ok 2)
      × (res.1.packs ≡ w.packs)
      × IsRecordedOnce (export_refused_entry args message version) w res.1

  -- Any other exception leaves everything as it was.
  abbrev pub IsTraced : Text → ExportWorld → Result Crash ℕ × ExportWorld → Type 0
  IsTraced version w res =
      IsExported version w res ⊎ IsRefused version w res ⊎ ((res.0 ≡ err uncaught) × (res.1 ≡ w))

  closed-IsTraced :
      (version : Text) (r : Result Refusal (EvidenceManifest × Dict Text)) (w : ExportWorld)
      (h : Text)
      → pack_for sha256 hmac parse_users manifest_json manifest_json_indented ticket_json read
          zip_bytes log args input
        ≡ r
      → (read_version sha256 parse_users input.version_at input.file w.directory).0 ≡ ok version
      → IsLater (rotated_name log input.source.stamp) w.disk
      → IsLog sha256 hmac log w.disk h
      → IsTraced version w (
          export_closed sha256 hmac parse_users manifest_json manifest_json_indented ticket_json
            read zip_bytes log args input r w)
  unfolding export_closed export_recorded pack_for
  closed-IsTraced version (ok (manifest, pack)) w h e p later i =
      let (draft, of_pack) =
        with_draft-IsPack (Drafts.get input.drafts args.draft_id) manifest pack refl e in
      let (code, packs, noted) =
        versioned-IsRecordedOnce version 0
          (exported_entry args (zip_bytes pack) manifest.manifest_sha256)
          (read_version sha256 parse_users input.version_at input.file w.directory) w
          (record w { packs = put w.packs args.zip_path pack }) h p refl later i in
      inl (
        draft,
        manifest,
        pack,
        code,
        of_pack,
        (build_pack-eq-ok sha256 manifest_json_indented read draft manifest
              (audit_lines_for args.draft_id input.log_file) args.exporter input.exported_at).0
            (pack, of_pack.2),
        packs,
        noted,
      )
  closed-IsTraced version (err (refused m)) w h e p later i =
      let (code, packs, noted) =
        versioned-IsRecordedOnce version 2 (export_refused_entry args m)
          (read_version sha256 parse_users input.version_at input.file w.directory) w w h p refl
          later i in
      inr (inl (m, code, packs, noted))
  closed-IsTraced version (err crashed) w h e p later i = inr (inr (refl, refl))

  -- If the log is intact and the directory can be read, an export ends in one of three ways: it writes
  -- one pack, of an approved index whose documents are intact, with one record in the log; or it
  -- refuses with one record and no pack; or an exception leaves everything as it was. A MAC is assumed
  -- not to be empty, and a new name of a rotated file to be later than the old ones.
  pub export-IsTraced :
      (version : Text) (w : ExportWorld) (h : Text)
      → (read_version sha256 parse_users input.version_at input.file w.directory).0 ≡ ok version
      → IsLater (rotated_name log input.source.stamp) w.disk
      → IsLog sha256 hmac log w.disk h
      → IsTraced version w (
          export sha256 hmac parse_users manifest_json manifest_json_indented ticket_json read
            zip_bytes log args input w)
  unfolding export
  export-IsTraced version w h p later i =
      closed-IsTraced version
        (pack_for sha256 hmac parse_users manifest_json manifest_json_indented ticket_json read
          zip_bytes log args input)
        w h refl p later i
