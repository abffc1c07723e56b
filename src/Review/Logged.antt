-- ===== src/Review/Logged.antt =====
-- What mcp/src/compliance_mcp/review_cli.py leaves in the audit log.
use regulatory_compliance_he.Prelude.{
  Text, ℕ, ◌≡◌, refl, subst, Option, none, some, false, List, ◌∷◌, ◌++◌, Result, ok, err, is_empty,
  lower, ◌==◌, Bool-cases, inl, inr,
}
use regulatory_compliance_he.Prelude.Map.{Dict}
use regulatory_compliance_he.Json.{Json}
use regulatory_compliance_he.Models.{User, Draft}
use regulatory_compliance_he.Audit.Record.{Entry}
use regulatory_compliance_he.Audit.Writer.{AuditError, AuditLog, Disk, rotated_name}
use regulatory_compliance_he.Audit.Append.{write}
use regulatory_compliance_he.Audit.Walks.{records_of}
use regulatory_compliance_he.Audit.Preservation.{lines, IsLater, IsLog}
use regulatory_compliance_he.Audit.Rotation.{IsOf, IsWritten, write-IsWritten}
use regulatory_compliance_he.Directory.{
  DirectoryError, access_denied, load_error, Directory, read_version,
}
use regulatory_compliance_he.Drafts.{DraftStore, DraftError, conflict, decide}
use regulatory_compliance_he.Drafts
use regulatory_compliance_he.Review.{
  ReviewIdentityMode, Args, World, Outside, Refusal, refused, crashed, Crash, uncaught,
  approver_identity, decided_entry, refused_entry, decided, found, authorised, identified, attempt,
  wrote, versioned, recorded, closed, review,
}

module _ (sha256 : Text → Text) (hmac : Text → Text → Text)
    (parse_users : Text → Option (List User)) (username : Text → Result Text Text)
    (mode : ReviewIdentityMode) (log : AuditLog) (args : Args) (outside : Outside)
    (mac_written : (k h : Text) → is_empty (hmac k h) ≡ false) where
  -- The command exits with a code, and the log has one record of `e` more, behind which a marker may
  -- stand.
  abbrev pub IsNoted : ℕ → Entry → World → Result Crash ℕ × World → Type 0
  IsNoted code e w res =
      (rec : Dict Json) × (markers : List (Dict Json)) × (h : Text) × (res.0 ≡ ok code)
      × IsOf sha256 hmac log mac_written e rec
      × (records_of (lines log res.1.disk) ≡ records_of (lines log w.disk) ++ rec ∷ markers)
      × IsLog sha256 hmac log res.1.disk h

  -- A decision exits with 0 and is noted as `ok`, a refusal exits with 2 and is noted as `denied`;
  -- any other exception leaves the command with no record.
  abbrev pub IsAccounted :
      Text → World → Result Refusal (User × Draft) → Result Crash ℕ × World → Type 0
  IsAccounted version w (ok (approver, draft)) res =
      IsNoted 0 (decided_entry args version approver draft) w res
  IsAccounted version w (err (refused m)) res = IsNoted 2 (refused_entry args version m) w res
  IsAccounted version w (err crashed) res = res.0 ≡ err uncaught

  wrote-IsNoted :
      (code : ℕ) (e : Entry) (r : Result AuditError (Dict Json) × Disk) (w v : World)
      → IsWritten sha256 hmac log mac_written e w.disk r
      → IsNoted code e w (wrote sha256 hmac parse_users username mode log args outside code r v)
  wrote-IsNoted code e (ok x, disk) w v (rec, markers, h, done, same, grown, i) =
      (rec, markers, h, refl, same, grown, i)
  wrote-IsNoted code e (err x, disk) w v (rec, markers, h, done, same, grown, i) = absurd (cc done)

  versioned-IsNoted :
      (version : Text) (code : ℕ) (entry : Text → Entry)
      (r : Result DirectoryError Text × Directory) (w v : World) (h : Text)
      → r.0 ≡ ok version
      → v.disk ≡ w.disk
      → IsLater (rotated_name log outside.source.stamp) w.disk
      → IsLog sha256 hmac log w.disk h
      → IsNoted code
          (entry version)
          w
          (versioned sha256 hmac parse_users username mode log args outside code entry r v)
  versioned-IsNoted version code entry (err e, d) w v h p same later i = absurd (cc p)
  versioned-IsNoted version code entry (ok x, d) w v h p same later i =
      subst
        (λ (t : Text). IsNoted code (entry t) w (
          wrote sha256 hmac parse_users username mode log args outside code
            (write sha256 hmac log outside.source (entry x) v.disk) (record v { directory = d })))
        (cc p)
        (wrote-IsNoted code (entry x) _ w (record v { directory = d })
          (rw same (
            write-IsWritten sha256 hmac log mac_written outside.source (entry x) w.disk h later i)))

  closed-IsAccounted :
      (version : Text) (t : Result Refusal (User × Draft)) (w v : World) (h : Text)
      → (read_version sha256 parse_users outside.version_at outside.file_then v.directory).0
        ≡ ok version
      → v.disk ≡ w.disk
      → IsLater (rotated_name log outside.source.stamp) w.disk
      → IsLog sha256 hmac log w.disk h
      → IsAccounted version w t
          (closed sha256 hmac parse_users username mode log args outside (t, v))
  unfolding recorded
  closed-IsAccounted version (ok (approver, draft)) w v h p same later i =
      versioned-IsNoted version 0 (λ x. decided_entry args x approver draft) _ w v h p same later i
  closed-IsAccounted version (err (refused m)) w v h p same later i =
      versioned-IsNoted version 2 (λ x. refused_entry args x m) _ w v h p same later i
  closed-IsAccounted version (err crashed) w v h p same later i = refl

  decided-disk :
      (approver : User) (r : Result DraftError Draft × DraftStore) (v : World)
      → (decided sha256 hmac parse_users username mode log args outside approver r v).1.disk
        ≡ v.disk
  decided-disk approver (ok draft, drafts) v = refl
  decided-disk approver (err (conflict m), drafts) v = refl
  decided-disk approver (err (Drafts.value_error m), drafts) v = refl
  decided-disk approver (err Drafts.integrity_error, drafts) v = refl
  decided-disk approver (err Drafts.assertion_error, drafts) v = refl

  found-disk :
      (approver : User) (o : Option Draft) (v : World)
      → (found sha256 hmac parse_users username mode log args outside approver o v).1.disk ≡ v.disk
  found-disk approver none v = refl
  found-disk approver (some asked) v =
      elim (Bool-cases (lower asked.requester == lower approver.upn)) [
        | inl own ↦ rw own refl
        | inr other ↦ rw other (decided-disk approver _ v)
      ]

  authorised-disk :
      (r : Result DirectoryError User × Directory) (v : World)
      → (authorised sha256 hmac parse_users username mode log args outside r v).1.disk ≡ v.disk
  authorised-disk (err (access_denied m), d) v = refl
  authorised-disk (err load_error, d) v = refl
  authorised-disk (ok approver, d) v = found-disk approver _ (record v { directory = d })

  identified-disk :
      (r : Result Text Text) (v : World)
      → (identified sha256 hmac parse_users username mode log args outside r v).1.disk ≡ v.disk
  identified-disk (err m) v = refl
  identified-disk (ok upn) v = authorised-disk _ v

  -- If the log is intact and the directory can be read when the record is written, each decision is
  -- noted with exit code 0 and each refusal with exit code 2, in one record of the log (behind which
  -- the marker of a rotation may stand), which is intact again; any other exception leaves the
  -- command. A MAC is assumed not to be empty, and a new name of a rotated file to be later than the
  -- old ones.
  pub review-IsAccounted :
      (version : Text) (w : World) (h : Text)
      → (read_version sha256 parse_users outside.version_at outside.file_then
          (attempt sha256 hmac parse_users username mode log args outside w).1.directory).0
        ≡ ok version
      → IsLater (rotated_name log outside.source.stamp) w.disk
      → IsLog sha256 hmac log w.disk h
      → IsAccounted version w
          (attempt sha256 hmac parse_users username mode log args outside w).0
          (review sha256 hmac parse_users username mode log args outside w)
  unfolding review attempt
  review-IsAccounted version w h p later i =
      closed-IsAccounted version
        (attempt sha256 hmac parse_users username mode log args outside w).0 w
        (attempt sha256 hmac parse_users username mode log args outside w).1 h p
        (identified-disk (approver_identity username mode args) w) later i
