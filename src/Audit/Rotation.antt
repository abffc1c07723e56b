-- ===== src/Audit/Rotation.antt =====
-- `AuditLog.write` of mcp/src/compliance_mcp/audit.py as a whole: the append, the rotation that may
-- follow, and the spool.
use mathlib.Core.List.{append_assoc}
use regulatory_compliance_he.Prelude.{
  Text, ◌≡◌, refl, ap, ◌∙◌, some, false, List, [], ◌∷◌, ◌++◌, last?, keep, take, Result, ok,
  Bool-cases, inl, inr, leb, is_empty,
}
use regulatory_compliance_he.Prelude.Int.{ℤ, pos}
use regulatory_compliance_he.Prelude.Map.{Dict}
use regulatory_compliance_he.Json.{Json, number, str}
use regulatory_compliance_he.Audit.Record.{Entry, Moment, seal, body_of, marker_of, get_text}
use regulatory_compliance_he.Audit.Writer.{
  entry, AuditError, AuditLog, Disk, Source, plain_line, ascii_line, tail_record, rotated_name,
  file_bytes,
}
use regulatory_compliance_he.Audit.Append.{
  rotate, rotate_to, forwarded, forward, rotate_if_full, append, write,
}
use regulatory_compliance_he.Audit.Verifier.{chain_files}
use regulatory_compliance_he.Audit.Walks.{records_of, records_of-append}
use regulatory_compliance_he.Audit.Sealing.{get_fields-seal}
use regulatory_compliance_he.Audit.Preservation.{lines, lines-rotate, IsLater, IsLog}
use regulatory_compliance_he.Audit.Writes.{
  record_of, prepare_lem, sealed-IsLog, Grows, appended-Grows,
}

module _ (sha256 : Text → Text) (hmac : Text → Text → Text) (log : AuditLog)
    (mac_written : (k h : Text) → is_empty (hmac k h) ≡ false) where
  abbrev marker_record : Text → Moment → Text → Dict Json
  marker_record stamp moment h =
      seal sha256 hmac log.hmac_key (marker_of log.agent_id moment (rotated_name log stamp) (str h))

  -- A rotation under a later name adds the marker.
  rotate-Grows :
      (stamp : Text) (moment : Moment) (disk : Disk) (h : Text)
      → IsLater (rotated_name log stamp) disk
      → IsLog sha256 hmac log disk h
      → ((rotate sha256 hmac log stamp moment disk).0 ≡ ok tt)
        × Grows sha256 hmac log mac_written disk
            (rotate sha256 hmac log stamp moment disk).1
            (marker_record stamp moment h)
  unfolding rotate rotate_to marker_of ascii_line tail_record last? keep
  rotate-Grows stamp moment disk h later i =
      let rec = marker_record stamp moment h in
      let grown = lines-rotate log disk (rotated_name log stamp) (ascii_line rec) later in
      rw i.headed (
        refl,
        (
          _,
          _,
          grown,
          sealed-IsLog sha256 hmac log mac_written disk _ h _ moment (pos 0) [] [] [] _ _ _ _ i
              grown refl,
        ),
      )

  -- The record says what the call was.
  abbrev pub IsOf : Entry → Dict Json → Type 0
  IsOf e rec =
      (get_text rec "requester" ≡ some e.requester)
      × (get_text rec "tool" ≡ some e.tool)
      × (get_text rec "outcome" ≡ some e.outcome)
      × (get_text rec "result_summary" ≡ some (take 2000 e.result_summary))
      × (get_text rec "session_id" ≡ some e.session_id)
      × (get_text rec "directory_version" ≡ some e.directory_version)

  record_of-IsOf :
      (moment : Moment) (n : ℤ) (h : Text) (e : Entry)
      → IsOf e (record_of sha256 hmac log mac_written moment n h e)
  unfolding body_of
  record_of-IsOf moment n h e =
      get_fields-seal sha256 hmac log.hmac_key log.agent_id moment (number n) e.requester
        e.session_id e.directory_version e.tool _ e.outcome _ h mac_written

  -- After a write: the record that it returns stands behind the old records, with the marker behind
  -- it if the file was rotated, and the whole is a log again.
  abbrev pub IsWritten : Entry → Disk → Result AuditError (Dict Json) × Disk → Type 0
  IsWritten e disk res =
      (rec : Dict Json) × (markers : List (Dict Json)) × (h : Text) × (res.0 ≡ ok rec)
      × IsOf e rec
      × (records_of (lines log res.1) ≡ records_of (lines log disk) ++ rec ∷ markers)
      × IsLog sha256 hmac log res.1 h

  -- The spool is no part of the log.
  IsLog-spool :
      (disk : Disk) (h : Text) (spool : List (Dict Json))
      → IsLog sha256 hmac log disk h
      → IsLog sha256 hmac log (record disk { spool = spool }) h
  unfolding lines chain_files
  IsLog-spool disk h spool i = record {
    readable = i.readable;
    chain = i.chain;
    headed = i.headed;
    numbered = i.numbered;
  }

  lines-spool :
      (disk : Disk) (spool : List (Dict Json))
      → lines log (record disk { spool = spool }) ≡ lines log disk
  unfolding lines chain_files
  lines-spool disk spool = refl

  -- The records of a log that grew.
  records-Grows :
      (disk next : Disk) (rec : Dict Json)
      → Grows sha256 hmac log mac_written disk next rec
      → records_of (lines log next) ≡ records_of (lines log disk) ++ rec ∷ []
  records-Grows disk next rec (bytes, h, grown, i) =
      rw grown (records_of-append (lines log disk) (entry bytes rec ∷ []))

  forward-IsWritten :
      (moment : Moment) (seq : ℤ) (e : Entry) (rec : Dict Json) (disk next : Disk)
      (markers : List (Dict Json)) (h : Text) (res : Result AuditError (Unit {0}))
      → IsOf e rec
      → res ≡ ok tt
      → records_of (lines log next) ≡ records_of (lines log disk) ++ rec ∷ markers
      → IsLog sha256 hmac log next h
      → IsWritten e disk (forward sha256 hmac log moment seq rec (res, next))
  unfolding forward
  forward-IsWritten moment seq e rec disk next markers h res same done grown i = rw done (
    rec,
    markers,
    h,
    refl,
    same,
    ap records_of (lines-spool next (next.spool ++ forwarded sha256 hmac log moment seq rec))
        ∙ grown,
    IsLog-spool next h _ i,
  )

  -- A write to a log returns a record of the call, never an error. It adds that record behind the old
  -- ones, and
  -- behind it the marker if the file is full, and leaves a log again; under the hypotheses that a MAC
  -- is not empty and that the name of a rotated file is later than those of the rotated files before.
  pub write-IsWritten :
      (source : Source) (e : Entry) (disk : Disk) (h : Text)
      → IsLater (rotated_name log source.stamp) disk
      → IsLog sha256 hmac log disk h
      → IsWritten e disk (write sha256 hmac log source e disk)
  unfolding write append rotate_if_full
  write-IsWritten source e disk h later i =
      let n = i.numbered.0 in
      let rec = record_of sha256 hmac log mac_written source.moment n h e in
      let next = record disk { active = disk.active ++ plain_line rec ∷ [] } in
      let same = record_of-IsOf source.moment n h e in
      let grows = appended-Grows sha256 hmac log mac_written source.moment e disk h i in
      let (bytes, h₁, grown, i₁) = grows in
      rw (prepare_lem sha256 hmac log mac_written source.moment e disk h i)
        (elim (Bool-cases (leb log.rotate_bytes (file_bytes next.active))) [
          | inl full ↦
              let (done, rotated) = rotate-Grows source.stamp source.marker next h₁ later i₁ in
              let (_, h₂, _, i₂) = rotated in
              rw full (
                forward-IsWritten source.moment n e rec disk _
                  (marker_record source.stamp source.marker h₁ ∷ []) h₂ _ same done
                  (records-Grows next _ _ rotated
                    ∙ rw (records-Grows disk next rec grows, append_assoc) refl)
                  i₂)
          | inr room ↦ rw room (
              forward-IsWritten source.moment n e rec disk next [] h₁ _ same refl
                (records-Grows disk next rec grows) i₁)
        ])
