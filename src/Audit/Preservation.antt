-- ===== src/Audit/Preservation.antt =====
-- What `AuditLog.write` of mcp/src/compliance_mcp/audit.py leaves is a chain again, one record
-- longer, also when it rotates the file.
use mathlib.Core.List.{append-nil, append_assoc}
use regulatory_compliance_he.Prelude.{
  Text, ℕ, ◌≡◌, refl, sym, ap, ◌∙◌, true, false, List, [], ◌∷◌, ◌++◌, arith, All, All-map, sort_by,
  ok, text_lt, text_le, ◌==◌, eq_iff, ◌>>=◌,
}
use regulatory_compliance_he.Prelude.Int.{ℤ}
use regulatory_compliance_he.Prelude.Map.{Dict, put, put_new}
use regulatory_compliance_he.Prelude.Order.{text_lt_irrefl, text_lt_trans}
use regulatory_compliance_he.Prelude.Sorting.{sort_by-append_last}
use regulatory_compliance_he.Json.{Json, str}
use regulatory_compliance_he.Audit.Record.{genesis}
use regulatory_compliance_he.Audit.Writer.{
  Line, entry, AuditLog, Disk, tail_record, next_seq, file_name,
}
use regulatory_compliance_he.Audit.Append.{head}
use regulatory_compliance_he.Audit.Verifier.{earlier, chain_files}
use regulatory_compliance_he.Audit.Chain.{IsLink, IsChain}
use regulatory_compliance_he.Audit.Walks.{
  records_of, IsReadable, all_lines, records_of-append, IsReadable-append, IsChain-append,
}

-- The lines of the whole chain, oldest first.
unfoldable pub lines : AuditLog → Disk → List Line
lines log disk = all_lines (chain_files log disk)

all_lines-append :
    (fs gs : List (Text × List Line)) → all_lines (fs ++ gs) ≡ all_lines fs ++ all_lines gs
all_lines-append [] gs = refl
all_lines-append ((name, ls) ∷ fs) gs =
    ap (λ (t : List Line). ls ++ t) (all_lines-append fs gs)
    ∙ sym (append_assoc ls (all_lines fs) (all_lines gs))

-- The rotated files, then the active one.
lines_split :
    (log : AuditLog) (disk : Disk)
    → lines log disk ≡ all_lines (sort_by earlier disk.rotated) ++ disk.active
unfolding lines chain_files
lines_split log disk = rw (
  all_lines-append (sort_by earlier disk.rotated) ((file_name log, disk.active) ∷ []),
  append-nil,
)

pub lines-append :
    (log : AuditLog) (disk : Disk) (l : Line)
    → lines log (record disk { active = disk.active ++ l ∷ [] }) ≡ lines log disk ++ l ∷ []
lines-append log disk l = rw (
  lines_split log (record disk { active = disk.active ++ l ∷ [] }),
  lines_split log disk,
  append_assoc,
)

-- The name is later than that of every rotated file.
abbrev pub IsLater : Text → Disk → Type 0
IsLater name disk = All (λ f. text_lt f.0 name ≡ true) disk.rotated

lt-ne : (s t : Text) → text_lt s t ≡ true → (s == t) ≡ false
lt-ne s t h = ground (arith, eq_iff s t, text_lt_irrefl s)

lt-le : (s t : Text) → text_lt s t ≡ true → text_le s t ≡ true
lt-le s t h = ground (arith, text_lt_trans s t s, text_lt_irrefl s)

pub lines-rotate :
    (log : AuditLog) (disk : Disk) (name : Text) (l : Line)
    → IsLater name disk
    → lines log (record disk { rotated = put disk.rotated name disk.active; active = l ∷ [] })
      ≡ lines log disk ++ l ∷ []
lines-rotate log disk name l h =
    let new_name =
      put_new disk.rotated name disk.active (All-map _ _ (λ f. lt-ne f.0 name) disk.rotated h) in
    let last_file =
      sort_by-append_last earlier (name, disk.active) disk.rotated
        (All-map _ _ (λ f. lt-le f.0 name) disk.rotated h) in
    rw (
      lines_split log
          (record disk { rotated = put disk.rotated name disk.active; active = l ∷ [] }),
      lines_split log disk,
      new_name,
      last_file,
      all_lines-append (sort_by earlier disk.rotated) ((name, disk.active) ∷ []),
      append-nil,
    )

module _ (sha256 : Text → Text) (hmac : Text → Text → Text) (log : AuditLog) where
  -- A log that `verify` accepts with the head `h`, and in whose active file a writer finds that head
  -- and a sequence number.
  pub record IsLog (disk : Disk) (h : Text) : Type 0 where
    pub readable : IsReadable (lines log disk)
    pub chain : IsChain sha256 hmac log.hmac_key genesis (records_of (lines log disk)) h
    pub headed : head disk.active ≡ ok (str h)
    pub numbered : (n : ℤ) × ((tail_record disk.active >>= next_seq) ≡ ok n)

  -- A link at the end of the lines keeps the chain.
  pub extend :
      (ls : List Line) (n : ℕ) (rec : Dict Json) (h x : Text)
      → IsReadable ls
      → IsChain sha256 hmac log.hmac_key genesis (records_of ls) h
      → IsLink sha256 hmac log.hmac_key h x rec
      → IsReadable (ls ++ entry n rec ∷ [])
        × IsChain sha256 hmac log.hmac_key genesis (records_of (ls ++ entry n rec ∷ [])) x
  extend ls n rec h x r c link = (
    (IsReadable-append ls (entry n rec ∷ [])).1 (r, tt),
    rw records_of-append (
        (IsChain-append sha256 hmac log.hmac_key genesis (records_of ls) (rec ∷ []) x).1
          (h, c, (x, link, refl))),
  )
