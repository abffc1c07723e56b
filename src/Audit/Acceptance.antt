-- ===== src/Audit/Acceptance.antt =====
-- `verify` of mcp/src/compliance_mcp/audit.py accepts a log exactly if its records form a chain.
use regulatory_compliance_he.Prelude.{
  Text, ◌≡◌, ◌↔◌, refl, sym, ap, ◌∙◌, true, List, length, arith, Result, ok, err,
}
use regulatory_compliance_he.Audit.Record.{genesis}
use regulatory_compliance_he.Audit.Writer.{Line, AuditLog, Disk}
use regulatory_compliance_he.Audit.Verifier.{
  VerifyResult, Stop, failed, raised, Walk, chain_files, verified, conclude, verify,
}
use regulatory_compliance_he.Audit.Chain.{IsChain}
use regulatory_compliance_he.Audit.Walks.{
  records_of, IsReadable, all_lines, advance, walk_files_complete, walk_files_sound,
}

module _ (sha256 : Text → Text) (hmac : Text → Text → Text) (key : Text) (log : AuditLog)
    (disk : Disk) where
  -- The lines of the whole chain, oldest first.
  abbrev pub lines_of : List Line
  lines_of = all_lines (chain_files log disk)

  abbrev pub start : Walk
  start = record { files = length (chain_files log disk); prev = genesis; count = 0 }

  pub verify_complete :
      (head : Text)
      → IsReadable lines_of
      → IsChain sha256 hmac key genesis (records_of lines_of) head
      → verify sha256 hmac key log disk
        ≡ ok (verified (advance start head (length (records_of lines_of))))
  unfolding verify conclude
  verify_complete head r c =
      rw (walk_files_complete sha256 hmac key (chain_files log disk) start head r c)

  accepted_walk :
      (x : Result Stop Walk) (r : VerifyResult)
      → conclude x ≡ ok r
      → r.ok_ ≡ true
      → (w : Walk) × (x ≡ ok w) × (r ≡ verified w)
  unfolding conclude
  accepted_walk (ok w) r e t = (w, refl, ground arith)
  accepted_walk (err (failed s m)) r e t = absurd (ground arith)
  accepted_walk (err (raised s)) r e t = cc

  pub verify_sound :
      (r : VerifyResult)
      → verify sha256 hmac key log disk ≡ ok r
      → r.ok_ ≡ true
      → IsReadable lines_of
        × IsChain sha256 hmac key genesis (records_of lines_of) r.head
        × (r.records ≡ length (records_of lines_of))
  unfolding verify verified
  verify_sound r e t =
      let (w, walked, same) = accepted_walk _ r e t in
      let (readable, chain, counted) =
        walk_files_sound sha256 hmac key (chain_files log disk) start w walked in
      (readable, rw same chain, ground arith)

  -- `verify` answers with a result that accepts exactly if every line parses and the records are a chain
  -- from the genesis value to the head of that result, which counts them: each record links to the hash
  -- of the one before it, has the hash of its own content and, under a key, its MAC.
  pub verify-eq-ok :
      (r : VerifyResult)
      → ((verify sha256 hmac key log disk ≡ ok r) × (r.ok_ ≡ true)) ↔ (
          IsReadable lines_of
          × IsChain sha256 hmac key genesis (records_of lines_of) r.head
          × (r ≡ verified (advance start r.head (length (records_of lines_of)))))
  unfolding verified
  verify-eq-ok r = (
    λ h.
        let (e, t) = h in
        let (readable, chain, n) = verify_sound r e t in
        let complete = verify_complete r.head readable chain in
        let same : r ≡ verified (advance start r.head (length (records_of lines_of))) = cc in
        (readable, chain, same),
    λ h.
        let (readable, chain, same) = h in
        (
          verify_complete r.head readable chain ∙ ap ok (sym same),
          ap (λ (s : VerifyResult). s.ok_) same,
        ),
  )
