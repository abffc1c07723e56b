-- ===== src/Audit/Writes.antt =====
-- `AuditLog.write` of mcp/src/compliance_mcp/audit.py keeps the chain, also when it rotates the file.
use regulatory_compliance_he.Prelude.{
  Text, ℕ, ◌≡◌, some, false, List, [], ◌∷◌, ◌++◌, keep, keep-append, last-append, ok, Result-cases,
  inl, inr, is_empty,
}
use regulatory_compliance_he.Prelude.Int.{ℤ}
use regulatory_compliance_he.Prelude.Map.{Dict}
use regulatory_compliance_he.Json.{Json, number, str}
use regulatory_compliance_he.Audit.Record.{Entry, Moment, fields, seal, body_of, digest}
use regulatory_compliance_he.Audit.Writer.{
  Line, entry, AuditLog, Disk, plain_line, is_written, tail_record, hash_or_genesis, next_of,
  next_seq, add_one,
}
use regulatory_compliance_he.Audit.Append.{head, prepare}
use regulatory_compliance_he.Audit.Sealing.{seal-IsLink, hash_or_genesis-seal, next_seq-seal}
use regulatory_compliance_he.Audit.Preservation.{lines, lines-append, IsLog, extend}

-- The record just written is the tail of its file.
tail_record-append :
    (ls : List Line) (n : ℕ) (d : Dict Json) → tail_record (ls ++ entry n d ∷ []) ≡ ok (some d)
unfolding tail_record keep
tail_record-append ls n d =
    rw (keep-append is_written ls (entry n d ∷ []), last-append (keep is_written ls) (entry n d))

module _ (sha256 : Text → Text) (hmac : Text → Text → Text) (log : AuditLog)
    (mac_written : (k h : Text) → is_empty (hmac k h) ≡ false) where
  abbrev pub record_of : Moment → ℤ → Text → Entry → Dict Json
  record_of moment n h e =
      seal sha256 hmac log.hmac_key (body_of log.agent_id moment (number n) (str h) e)

  pub prepare_lem :
      (moment : Moment) (e : Entry) (disk : Disk) (h : Text) (i : IsLog sha256 hmac log disk h)
      → prepare sha256 hmac log moment e disk.active
        ≡ ok (i.numbered.0, record_of moment i.numbered.0 h e)
  unfolding prepare head
  prepare_lem moment e disk h i = elim (Result-cases (tail_record disk.active)) [
    | inl (tail, p) ↦
        let headed : hash_or_genesis tail ≡ ok (str h) = rw p at i.headed in
        let counted : next_seq tail ≡ ok i.numbered.0 = rw p at i.numbered.1 in
        rw (p, headed, counted)
    | inr (x, p) ↦ absurd (cc (i.numbered.1, p))
  ]

  -- A sealed record at the end of the lines, which is the tail of the active file.
  pub sealed-IsLog :
      (disk next : Disk) (h : Text) (bytes : ℕ) (moment : Moment) (n : ℤ)
      (requester session_id directory_version tool : Text) (args : Json) (outcome summary : Text)
      → let rec = seal sha256 hmac log.hmac_key (
          fields log.agent_id moment
            (number n)
            requester
            session_id
            directory_version
            tool
            args
            outcome
            summary
            (str h)) in
        IsLog sha256 hmac log disk h
        → lines log next ≡ lines log disk ++ entry bytes rec ∷ []
        → tail_record next.active ≡ ok (some rec)
        → IsLog sha256 hmac log next (
            digest sha256 (
              fields log.agent_id moment
                (number n)
                requester
                session_id
                directory_version
                tool
                args
                outcome
                summary
                (str h)))
  unfolding head next_of
  sealed-IsLog disk next h bytes moment n requester session_id directory_version tool args outcome
        summary i grown tail =
      let rec = seal sha256 hmac log.hmac_key (
        fields log.agent_id moment (number n) requester session_id directory_version tool args
          outcome summary (str h)) in
      let link =
        seal-IsLink sha256 hmac log.hmac_key log.agent_id moment (number n) requester session_id
          directory_version tool args outcome summary h mac_written in
      let (readable, chain) =
        extend sha256 hmac log (lines log disk) bytes rec h _ i.readable i.chain link in
      record {
        readable = rw grown readable;
        chain = rw grown chain;
        headed = rw tail (
            hash_or_genesis-seal sha256 hmac log.hmac_key log.agent_id moment (number n) requester
              session_id directory_version tool args outcome summary h mac_written);
        numbered = (
          add_one n,
          rw tail (
              next_seq-seal sha256 hmac log.hmac_key log.agent_id moment (number n) requester
                session_id directory_version tool args outcome summary h mac_written),
        );
      }

  -- What follows the last line of a log: `next` has one record more, which is a log with a new head.
  abbrev pub Grows : Disk → Disk → Dict Json → Type 0
  Grows disk next rec =
      (bytes : ℕ) × (h : Text) × (lines log next ≡ lines log disk ++ entry bytes rec ∷ [])
      × IsLog sha256 hmac log next h

  pub appended-Grows :
      (moment : Moment) (e : Entry) (disk : Disk) (h : Text) (i : IsLog sha256 hmac log disk h)
      → let rec = record_of moment i.numbered.0 h e in
        Grows disk (record disk { active = disk.active ++ plain_line rec ∷ [] }) rec
  unfolding body_of plain_line
  appended-Grows moment e disk h i =
      let rec = record_of moment i.numbered.0 h e in
      let grown = lines-append log disk (plain_line rec) in
      (
        _,
        _,
        grown,
        sealed-IsLog disk _ h _ moment i.numbered.0 e.requester e.session_id e.directory_version
            e.tool _ e.outcome _ i grown (tail_record-append disk.active _ rec),
      )
