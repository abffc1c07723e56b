-- ===== src/Audit/Writer.antt =====
-- The writer of mcp/src/compliance_mcp/audit.py: `AuditLog.write`, `head` and `_rotate`.
use regulatory_compliance_he.Prelude.{
  Text, lit, ℕ, zero, suc, ◌+◌, ◌%◌, Option, none, some, Bool, true, false, List, [], ◌∷◌, ◌++◌,
  keep, last?, Result, ok, err, ltb, nat_eq, if◌then◌else◌,
}
use regulatory_compliance_he.Prelude.Int.{ℤ, pos, negsuc}
use regulatory_compliance_he.Prelude.Map.{Dict, get}
use regulatory_compliance_he.Json.{Json, number, boolean, str, dumps}
use regulatory_compliance_he.Audit.Record.{genesis, Moment}

-- A line of a log file, with its length in bytes: a dictionary, white space, or what is no
-- dictionary and so makes a reader raise.
pub data Line : Type 0 where
  entry : ℕ → Dict Json → Line
  blank : ℕ → Line
  malformed : ℕ → Line

pub data AuditError : Type 0 where
  decode_error key_error type_error : AuditError

pub record AuditLog : Type 0 where
  pub stem : Text
  pub suffix : Text
  pub agent_id : Text
  pub hmac_key : Text
  pub rotate_bytes : ℕ
  pub anchor_every : ℕ
  pub forwarding : Bool

-- What is on disk: the rotated files by name, the active file and the spool, oldest first.
pub record Disk : Type 0 where
  pub rotated : Dict (List Line)
  pub active : List Line
  pub spool : List (Dict Json)

-- What one `write` reads from the clock and the random source: for the record, for the anchor that
-- may follow and for the rotation that may follow.
pub record Source : Type 0 where
  pub moment : Moment
  pub stamp : Text
  pub marker : Moment

pub utf8_bytes : Text → ℕ
utf8_bytes [] = 0
utf8_bytes (c ∷ s) =
    (if ltb c 0x80 then 1 else if ltb c 0x800 then 2 else if ltb c 0x10000 then 3 else 4)
    + utf8_bytes s

-- The length of a text in which `ensure_ascii` has escaped what is not printable ASCII.
pub ascii_bytes : Text → ℕ
ascii_bytes [] = 0
ascii_bytes (c ∷ s) = (if ltb c 0x7f then 1 else if ltb c 0x10000 then 6 else 12) + ascii_bytes s

unfoldable pub plain_line : Dict Json → Line
plain_line d = entry (suc (utf8_bytes (dumps (lit ", ") (lit ": ") d))) d

unfoldable pub ascii_line : Dict Json → Line
ascii_line d = entry (suc (ascii_bytes (dumps (lit ", ") (lit ": ") d))) d

abbrev pub line_bytes : Line → ℕ
line_bytes (entry n d) = n
line_bytes (blank n) = n
line_bytes (malformed n) = n

pub file_bytes : List Line → ℕ
file_bytes [] = 0
file_bytes (l ∷ ls) = line_bytes l + file_bytes ls

abbrev pub is_written : Line → Bool
is_written (blank n) = false
is_written _ = true

parse_line : Option Line → Result AuditError (Option (Dict Json))
parse_line none = ok none
parse_line (some (entry n d)) = ok (some d)
parse_line (some (blank n)) = ok none
parse_line (some (malformed n)) = err decode_error

-- `_tail_record`: the last line that is not blank.
unfoldable pub tail_record : List Line → Result AuditError (Option (Dict Json))
unfolding parse_line
tail_record lines = parse_line (last? (keep is_written lines))

required : Option Json → Result AuditError Json
required none = err key_error
required (some v) = ok v

-- `tail["hash"] if tail else GENESIS`; an empty dictionary counts as none.
unfoldable pub hash_or_genesis : Option (Dict Json) → Result AuditError Json
unfolding required
hash_or_genesis none = ok (str genesis)
hash_or_genesis (some []) = ok (str genesis)
hash_or_genesis (some (m ∷ d)) = required (get (m ∷ d) (lit "hash"))

unfoldable pub add_one : ℤ → ℤ
add_one (pos n) = pos (suc n)
add_one (negsuc zero) = pos 0
add_one (negsuc (suc n)) = negsuc n

unfoldable pub next_of : Option Json → Result AuditError ℤ
next_of none = ok (pos 1)
next_of (some (number n)) = ok (add_one n)
next_of (some (boolean true)) = ok (pos 2)
next_of (some (boolean false)) = ok (pos 1)
next_of (some _) = err type_error

-- `(tail.get("seq", 0) if tail else 0) + 1`
unfoldable pub next_seq : Option (Dict Json) → Result AuditError ℤ
next_seq none = ok (pos 1)
next_seq (some d) = next_of (get d (lit "seq"))

-- `n % k == 0`
unfoldable pub divides : ℕ → ℤ → Bool
divides k (pos n) = nat_eq (n % k) 0
divides k (negsuc n) = nat_eq (suc n % k) 0

abbrev pub at_least_one : ℕ → ℕ
at_least_one zero = 1
at_least_one (suc n) = suc n

pub file_name : AuditLog → Text
file_name log = log.stem ++ log.suffix

-- The name that `_rotate` gives to the old file.
unfoldable pub rotated_name : AuditLog → Text → Text
rotated_name log stamp = log.stem ++ (lit "." ++ (stamp ++ log.suffix))
