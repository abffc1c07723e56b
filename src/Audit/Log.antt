-- ===== src/Audit/Log.antt =====
-- Sequences of writes of mcp/src/compliance_mcp/audit.py to a log that starts empty.
use regulatory_compliance_he.Prelude.{
  Text, ◌≡◌, refl, false, List, [], ◌∷◌, ok, is_empty, sort_by, length, last?, keep,
}
use regulatory_compliance_he.Prelude.Int.{pos}
use regulatory_compliance_he.Json.{str}
use regulatory_compliance_he.Audit.Record.{genesis, Entry}
use regulatory_compliance_he.Audit.Writer.{
  AuditLog, Disk, Source, rotated_name, tail_record, hash_or_genesis, next_seq,
}
use regulatory_compliance_he.Audit.Append.{head, write}
use regulatory_compliance_he.Audit.Verifier.{chain_files, verified, verify}
use regulatory_compliance_he.Audit.Walks.{records_of, advance}
use regulatory_compliance_he.Audit.Acceptance.{start, verify_complete}
use regulatory_compliance_he.Audit.Preservation.{lines, IsLater, IsLog}
use regulatory_compliance_he.Audit.Rotation.{write-IsWritten}

-- No file has been written yet.
abbrev pub no_files : Disk
no_files = record { rotated = []; active = []; spool = [] }

module _ (sha256 : Text → Text) (hmac : Text → Text → Text) (log : AuditLog)
    (mac_written : (k h : Text) → is_empty (hmac k h) ≡ false) where
  -- The disk after a sequence of writes.
  pub run : List (Source × Entry) → Disk → Disk
  run [] disk = disk
  run ((source, e) ∷ calls) disk = run calls (write sha256 hmac log source e disk).1

  -- Each write draws a stamp whose file name is later than that of every rotated file.
  abbrev pub HasLaterStamps : List (Source × Entry) → Disk → Type 0
  HasLaterStamps [] disk = Unit {0}
  HasLaterStamps ((source, e) ∷ calls) disk =
      IsLater (rotated_name log source.stamp) disk
      × HasLaterStamps calls (write sha256 hmac log source e disk).1

  pub no_files-IsLog : IsLog sha256 hmac log no_files genesis
  unfolding lines chain_files head tail_record hash_or_genesis next_seq sort_by last? keep
  no_files-IsLog = record { readable = tt; chain = refl; headed = refl; numbered = (pos 1, refl) }

  pub run-IsLog :
      (calls : List (Source × Entry)) (disk : Disk) (h : Text)
      → HasLaterStamps calls disk
      → IsLog sha256 hmac log disk h
      → (h' : Text) × IsLog sha256 hmac log (run calls disk) h'
  unfolding run
  run-IsLog [] disk h later i = (h, i)
  run-IsLog ((source, e) ∷ calls) disk h (later, rest) i =
      let (rec, markers, h₁, done, same, grown, i₁) =
        write-IsWritten sha256 hmac log mac_written source e disk h later i in
      run-IsLog calls (write sha256 hmac log source e disk).1 h₁ rest i₁

  -- Whatever is written to a log that starts empty, however often it rotates, `verify` under the
  -- writer's key accepts it, with the hash of the last record as head and the number of the records
  -- as count; under the hypotheses that a MAC is not empty and that the name of a rotated file is
  -- later than those of the rotated files before.
  pub verify-run :
      (calls : List (Source × Entry))
      → HasLaterStamps calls no_files
      → (h : Text) × (head (run calls no_files).active ≡ ok (str h))
        × (verify sha256 hmac log.hmac_key log (run calls no_files)
            ≡ ok (
                verified (
                  advance
                    (start sha256 hmac log.hmac_key log (run calls no_files))
                    h
                    (length (records_of (lines log (run calls no_files)))))))
  unfolding lines
  verify-run calls later =
      let (h, i) = run-IsLog calls no_files genesis later no_files-IsLog in
      (
        h,
        i.headed,
        verify_complete sha256 hmac log.hmac_key log (run calls no_files) h i.readable i.chain,
      )
