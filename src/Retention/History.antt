-- ===== src/Retention/History.antt =====
-- Histories of the drafts in which the review of mcp/src/compliance_mcp/drafts.py and the purge of
-- mcp/src/compliance_mcp/admin_cli.py take turns.
use regulatory_compliance_he.Prelude.{
  Text, ◌≡◌, refl, ◌∙◌, ◌⊎◌, inl, inr, some, true, List, [], ◌∷◌, Bool-cases,
}
use regulatory_compliance_he.Drafts.{Row, DraftStore}
use regulatory_compliance_he.Drafts.Invariant.{IsWellFormed}
use regulatory_compliance_he.Drafts.Decisions.{find}
use regulatory_compliance_he.Drafts.History.{
  Write, step, IsDecided, step-IsWellFormed, find-step_decided,
}
use regulatory_compliance_he.Retention.{is_expired, delete_expired}
use regulatory_compliance_he.Retention.Deletion.{delete_expired-IsWellFormed, find-delete_expired}

-- A new draft or a decision, or `purge --apply` with its cut-off.
pub data Change : Type 0 where
  writes : Write → Change
  purges : Text → Change

unfoldable pub change : (Text → Text) → DraftStore → Change → DraftStore
change sha256 store (writes x) = step sha256 store x
change sha256 store (purges cutoff) = delete_expired cutoff store

unfoldable pub run_changes : (Text → Text) → DraftStore → List Change → DraftStore
unfolding change
run_changes sha256 store [] = store
run_changes sha256 store (x ∷ xs) = run_changes sha256 (change sha256 store x) xs

-- A purge of the history has a cut-off later than the decision of the row.
abbrev pub IsPurged : Row → List Change → Type 0
IsPurged row [] = ⊥
IsPurged row (writes x ∷ xs) = IsPurged row xs
IsPurged row (purges cutoff ∷ xs) = (is_expired cutoff row ≡ true) ⊎ IsPurged row xs

-- The row of a decided draft, with who decided, why, when and on which content, stays as it is whatever
-- new drafts, decisions and purges follow, unless one of the purges has a cut-off later than the
-- decision.
pub find-run_changes_decided :
    (sha256 : Text → Text) (store : DraftStore) (xs : List Change) (j : Text) (row : Row)
    → IsWellFormed store
    → IsDecided row
    → find store j ≡ some row
    → (find (run_changes sha256 store xs) j ≡ some row) ⊎ IsPurged row xs
unfolding run_changes change
find-run_changes_decided sha256 store [] j row w d h = inl h
find-run_changes_decided sha256 store (writes x ∷ xs) j row w d h =
    find-run_changes_decided sha256 (step sha256 store x) xs j row
      (step-IsWellFormed sha256 store x w) d (find-step_decided sha256 store x j row w d h)
find-run_changes_decided sha256 store (purges cutoff ∷ xs) j row w d h =
    elim (Bool-cases (is_expired cutoff row)) [
      | inl gone ↦ inr (inl gone)
      | inr stays ↦
          let kept : find (delete_expired cutoff store) j ≡ some row =
            find-delete_expired cutoff j store w.unique ∙ rw (h, stays) refl in
          elim (find-run_changes_decided sha256 (delete_expired cutoff store) xs j row
            (delete_expired-IsWellFormed cutoff store w) d kept) [
              | inl found ↦ inl found
              | inr purged ↦ inr (inr purged)
            ]
    ]
