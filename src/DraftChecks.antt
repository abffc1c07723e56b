-- ===== src/DraftChecks.antt =====
-- mcp/src/compliance_mcp/draft_checks.py: the checks on the content of a draft. The look-up of a
-- release and the recomputation of a manifest hash are arguments, as in the code.
pub mod Patterns
pub mod Verbatim
use regulatory_compliance_he.Prelude.{
  Text, lit, decimal, ℕ, Option, none, some, Bool, true, false, not, List, [], ◌∷◌, ◌++◌, map, keep,
  any, take, join, contains, length, ltb, ◌==◌, Result, ok, err, if◌then◌else◌, ◌>>=◌,
}
use regulatory_compliance_he.Models.{DraftKind, policy_mapping, evidence_pack_index, Release}
use regulatory_compliance_he.DraftChecks.Patterns.{quote_cells, normalise, hashes, index_title}

-- `DraftRejected`, and what the recomputation may raise.
pub data CheckError : Type 0 where
  draft_rejected : Text → CheckError
  recompute_error : CheckError

abbrev pub is_nil {ℓ} : {A : Type ℓ} → List A → Bool
is_nil [] = true
is_nil (x ∷ xs) = false

-- The releases that are found, in order.
unfoldable pub known : (Text → Option Release) → List Text → List Release
known lookup_release [] = []
known lookup_release (rid ∷ rids) =
    let rest = known lookup_release rids in
    elim (lookup_release rid) [ none ↦ rest | some r ↦ r ∷ rest ]

unfoldable pub corpus_of : (Text → Option Release) → List Text → List Text
corpus_of lookup_release related_ids =
    map (λ r. normalise r.text) (known lookup_release related_ids)

-- The quote stands in one of the texts.
abbrev pub is_verbatim : List Text → Text → Bool
is_verbatim corpus q = any (λ text. contains q text) corpus

unfoldable pub missing_from : List Text → List Text → List Text
missing_from corpus quotes = keep (λ q. not (is_verbatim corpus q)) quotes

abbrev pub no_table : Text
no_table =
    lit
      "policy_mapping draft has no obligations table with quoted text (| # | type | \"quote\" | ...)"

abbrev pub no_release : Text
no_release = lit "related_ids must include at least one known release id so quotes can be verified"

listed : Text → Text
listed q = lit "\"" ++ (take 80 q ++ ((if ltb 80 (length q) then lit "..." else []) ++ lit "\""))

pub missing_message : List Text → Text
missing_message missing =
    decimal (length missing)
    ++ (lit " quote(s) are not verbatim from the related release(s): "
        ++ join (lit "; ") (map listed missing))

unfoldable pub check_missing : List Text → Result CheckError (Unit {0})
check_missing [] = ok tt
check_missing (q ∷ qs) = err (draft_rejected (missing_message (q ∷ qs)))

-- `check_policy_mapping`
unfoldable pub check_policy_mapping :
    Text → List Text → (Text → Option Release) → Result CheckError (Unit {0})
check_policy_mapping body related_ids lookup_release =
    let quotes = map normalise (quote_cells body) in
    if is_nil quotes
    then err (draft_rejected no_table)
    else (let corpus = corpus_of lookup_release related_ids in
        if is_nil corpus
        then err (draft_rejected no_release)
        else check_missing (missing_from corpus quotes))

abbrev pub bad_title : Text
bad_title = lit "evidence_pack_index title must be 'Evidence index <control_id> <start>..<end>'"

abbrev pub no_hash : Text
no_hash = lit "evidence_pack_index body must cite the manifest SHA-256 from evidence_bundle"

abbrev pub wrong_hash : Text
wrong_hash =
    lit
      "cited manifest hash does not match the evidence bundle for this control and period; re-run evidence_bundle"

pub cannot_recompute : Text → Text → Text → Text
cannot_recompute control start end =
    lit "cannot recompute evidence for " ++ (control ++ (lit " " ++ (start ++ (lit ".." ++ end))))

unfoldable pub check_hash :
    List Text → Text → Text → Text → Option Text → Result CheckError (Unit {0})
check_hash cited control start end none = err (draft_rejected (cannot_recompute control start end))
check_hash cited control start end (some actual) =
    if any (λ h. h == actual) cited then ok tt else err (draft_rejected wrong_hash)

-- `check_evidence_pack_index`
unfoldable pub check_evidence_pack_index :
    (ℕ → Bool)
    → Text
    → Text
    → (Text → Text → Text → Result CheckError (Option Text))
    → Result CheckError (Unit {0})
check_evidence_pack_index wide body title recompute_hash = elim (index_title title) [
  | none ↦ err (draft_rejected bad_title)
  | some (control, start, end) ↦
      let cited = hashes wide body in
      if is_nil cited
      then err (draft_rejected no_hash)
      else (recompute_hash control start end >>= λ actual.
          check_hash cited control start end actual)
]

-- `check_draft`
unfoldable pub check_draft :
    (ℕ → Bool)
    → DraftKind
    → Text
    → Text
    → List Text
    → (Text → Option Release)
    → (Text → Text → Text → Result CheckError (Option Text))
    → Result CheckError (Unit {0})
check_draft wide policy_mapping title body related_ids lookup_release recompute_hash =
    check_policy_mapping body related_ids lookup_release
check_draft wide evidence_pack_index title body related_ids lookup_release recompute_hash =
    check_evidence_pack_index wide body title recompute_hash
check_draft wide _ title body related_ids lookup_release recompute_hash = ok tt
