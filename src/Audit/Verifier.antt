-- ===== src/Audit/Verifier.antt =====
-- The verifier of mcp/src/compliance_mcp/audit.py: `chain_files` and `verify`.
use regulatory_compliance_he.Prelude.{
  Text, lit, any, ltb, decimal, ℕ, zero, suc, Option, none, some, Bool, true, false, not, List, [],
  ◌∷◌, ◌++◌, length, take, sort_by, Result, ok, err, is_empty, text_le, ◌==◌, if◌then◌else◌, ◌>>=◌,
}
use regulatory_compliance_he.Prelude.Int.{pos}
use regulatory_compliance_he.Prelude.Map.{Dict, get}
use regulatory_compliance_he.Json.{Json, null, boolean, number, str, arr, obj, nil, end}
use regulatory_compliance_he.Audit.Record.{genesis, digest, get_text, without_seals}
use regulatory_compliance_he.Audit.Writer.{
  Line, entry, blank, malformed, AuditError, decode_error, type_error, AuditLog, Disk, file_name,
}

pub record VerifyResult : Type 0 where
  pub ok_ : Bool
  pub records : ℕ
  pub files : ℕ
  pub head : Text
  pub message : Text

abbrev pub earlier : Text × List Line → Text × List Line → Bool
earlier a b = text_le a.0 b.0

-- `chain_files`: the rotated files by name, then the active file.
unfoldable pub chain_files : AuditLog → Disk → List (Text × List Line)
chain_files log disk = sort_by earlier disk.rotated ++ (file_name log, disk.active) ∷ []

-- Python's truth value of a JSON value, for `not rec.get("mac")`.
unfoldable pub is_true : Option Json → Bool
is_true none = false
is_true (some null) = false
is_true (some (boolean b)) = b
is_true (some (number (pos zero))) = false
is_true (some (number _)) = true
is_true (some (str t)) = not (is_empty t)
is_true (some (arr nil)) = false
is_true (some (arr _)) = true
is_true (some (obj end)) = false
is_true (some (obj _)) = true

abbrev same_text : Option Text → Text → Bool
same_text none t = false
same_text (some s) t = s == t

unfoldable pub is_text : Text → Option Text → Bool
is_text t found = same_text found t

-- Where the walk stands: the number of files, the head and the count so far.
pub record Walk : Type 0 where
  pub files : ℕ
  pub prev : Text
  pub count : ℕ

-- `verify` ends early with a failed result, where the walk stands and why, or by raising.
pub data Stop : Type 0 where
  failed : Walk → Text → Stop
  raised : AuditError → Stop

-- `hmac.compare_digest` raises on what is no text or has a character beyond ASCII; the MAC that is
-- expected has hexadecimal digits only.
unfoldable pub compare_mac : Walk → Text → Option Text → Text → Result Stop (Unit {0})
compare_mac w where_ none expected = err (raised type_error)
compare_mac w where_ (some mac) expected =
    if mac == expected
    then ok tt
    else if any (λ c. ltb 127 c) mac
    then err (raised type_error)
    else err (failed w (where_ ++ lit ": MAC mismatch (record forged)"))

unfoldable pub check_mac :
    (Text → Text → Text) → Text → Walk → Text → Dict Json → Text → Result Stop (Unit {0})
unfolding compare_mac
check_mac hmac key w where_ rec hash =
    if is_empty key
    then ok tt
    else if is_true (get rec (lit "mac"))
    then compare_mac w where_ (get_text rec "mac") (hmac key hash)
    else err (failed w (where_ ++ lit ": record has no MAC but a key is configured"))

unfoldable pub verified : Walk → VerifyResult
verified w = record {
  ok_ = true;
  records = w.count;
  files = w.files;
  head = w.prev;
  message =
      decimal w.count
      ++ (lit " records across "
          ++ (decimal w.files ++ (lit " file(s) verified, head " ++ take 12 w.prev)));
}

unfoldable pub conclude : Result Stop Walk → Result AuditError VerifyResult
conclude (ok w) = ok (verified w)
conclude (err (failed w message)) =
    ok
      (record { ok_ = false; records = w.count; files = w.files; head = w.prev; message = message })
conclude (err (raised e)) = err e

module _ (sha256 : Text → Text) (hmac : Text → Text → Text) (key : Text) where
  -- One record: the new head of the walk.
  unfoldable pub check_record : Walk → Text → Dict Json → Result Stop Text
  check_record w where_ rec =
      if is_text w.prev (get_text rec "prev_hash")
      then (let hash = digest sha256 (without_seals rec) in
          if is_text hash (get_text rec "hash")
          then (check_mac hmac key w where_ rec hash >>= λ _. ok hash)
          else err (failed w (where_ ++ lit ": record hash mismatch (record altered)")))
      else err (failed w (where_ ++ lit ": chain broken (prev_hash mismatch)"))

  unfoldable pub walk_lines : Text → ℕ → List Line → Walk → Result Stop Walk
  walk_lines name lineno [] w = ok w
  walk_lines name lineno (blank n ∷ ls) w = walk_lines name (suc lineno) ls w
  walk_lines name lineno (malformed n ∷ ls) w = err (raised decode_error)
  walk_lines name lineno (entry n rec ∷ ls) w =
      check_record w (name ++ (lit ":" ++ decimal lineno)) rec >>= λ hash.
      walk_lines name (suc lineno) ls (record w { prev = hash; count = suc w.count })

  unfoldable pub walk_files : List (Text × List Line) → Walk → Result Stop Walk
  walk_files [] w = ok w
  walk_files ((name, lines) ∷ fs) w = walk_lines name 1 lines w >>= walk_files fs

  -- `verify`
  unfoldable pub verify : AuditLog → Disk → Result AuditError VerifyResult
  verify log disk =
      let files = chain_files log disk in
      conclude (walk_files files (record { files = length files; prev = genesis; count = 0 }))
