-- ===== src/Audit/Append.antt =====
-- `AuditLog.write` and `_rotate` of mcp/src/compliance_mcp/audit.py.
use regulatory_compliance_he.Prelude.{
  Text, lit, List, [], ◌∷◌, ◌++◌, Result, ok, err, leb, if◌then◌else◌, ◌>>=◌, Option, none, some,
}
use regulatory_compliance_he.Prelude.Int.{ℤ}
use regulatory_compliance_he.Prelude.Map.{Dict, get, put}
use regulatory_compliance_he.Json.{Json, null, number, str}
use regulatory_compliance_he.Audit.Record.{Entry, Moment, body_of, marker_of, seal}
use regulatory_compliance_he.Audit.Writer.{
  Line, AuditError, AuditLog, Disk, Source, plain_line, ascii_line, file_bytes, tail_record,
  hash_or_genesis, next_seq, divides, at_least_one, rotated_name,
}

-- A sealed record has a hash, so the default is not reached.
pub value_or_null : Option Json → Json
value_or_null none = null
value_or_null (some v) = v

-- `head`
unfoldable pub head : List Line → Result AuditError Json
head lines = tail_record lines >>= hash_or_genesis

module _ (sha256 : Text → Text) (hmac : Text → Text → Text) (log : AuditLog) where
  -- The new file holds the marker alone.
  unfoldable pub rotate_to :
      Text → Moment → Result AuditError Json → Disk → Result AuditError (Unit {0}) × Disk
  rotate_to name moment (err e) disk = (err e, disk)
  rotate_to name moment (ok h) disk = (
    ok tt,
    record disk {
      rotated = put disk.rotated name disk.active;
      active =
          ascii_line (seal sha256 hmac log.hmac_key (marker_of log.agent_id moment name h)) ∷ [];
    },
  )

  -- `_rotate`
  unfoldable pub rotate : Text → Moment → Disk → Result AuditError (Unit {0}) × Disk
  rotate stamp moment disk = rotate_to (rotated_name log stamp) moment (head disk.active) disk

  -- The sequence number and the sealed record that `write` appends.
  unfoldable pub prepare : Moment → Entry → List Line → Result AuditError (ℤ × Dict Json)
  prepare moment e lines = tail_record lines >>= λ tail. hash_or_genesis tail >>= λ prev.
      next_seq tail >>= λ seq.
      ok (seq, seal sha256 hmac log.hmac_key (body_of log.agent_id moment (number seq) prev e))

  pub anchor : Moment → ℤ → Dict Json → Dict Json
  anchor moment seq body =
      (lit "type", str (lit "anchor"))
      ∷ (lit "ts", str moment.ts)
      ∷ (lit "agent_id", str log.agent_id)
      ∷ (lit "seq", number seq)
      ∷ (lit "head", value_or_null (get body (lit "hash")))
      ∷ []

  -- The records that go to the spool after an append.
  unfoldable pub forwarded : Moment → ℤ → Dict Json → List (Dict Json)
  forwarded moment seq body =
      if log.forwarding
      then body
        ∷ (if divides (at_least_one log.anchor_every) seq then anchor moment seq body ∷ [] else [])
      else []

  unfoldable pub forward :
      Moment
      → ℤ
      → Dict Json
      → Result AuditError (Unit {0}) × Disk
      → Result AuditError (Dict Json) × Disk
  forward moment seq body (err e, disk) = (err e, disk)
  forward moment seq body (ok _, disk) =
      (ok body, record disk { spool = disk.spool ++ forwarded moment seq body })

  unfoldable pub rotate_if_full : Source → Disk → Result AuditError (Unit {0}) × Disk
  rotate_if_full source disk =
      if leb log.rotate_bytes (file_bytes disk.active)
      then rotate source.stamp source.marker disk
      else (ok tt, disk)

  unfoldable pub append :
      Source → Result AuditError (ℤ × Dict Json) → Disk → Result AuditError (Dict Json) × Disk
  append source (err e) disk = (err e, disk)
  append source (ok (seq, body)) disk =
      forward source.moment seq body
        (rotate_if_full source (record disk { active = disk.active ++ plain_line body ∷ [] }))

  -- `write`
  unfoldable pub write : Source → Entry → Disk → Result AuditError (Dict Json) × Disk
  write source e disk = append source (prepare source.moment e disk.active) disk
