-- ===== src/Drafts/Decisions.antt =====
-- What `decide` of mcp/src/compliance_mcp/drafts.py does to the queue, on every branch.
use regulatory_compliance_he.Prelude.{
  Text, lit, ℕ, ◌≡◌, ◌≢◌, refl, inl, inr, Option, none, some, true, false, ◌||◌, [], ◌∷◌, arith,
  any, find_first, Bool-cases, ◌==◌, eq_iff, Result, ok, err, if◌then◌else◌,
}
use regulatory_compliance_he.Models.{DraftStatus, pending, approved, rejected, same_status, Draft}
use regulatory_compliance_he.Drafts.{
  transition, found_or, Row, DraftStore, DraftError, conflict, value_error, has_id, decided,
  to_draft, conflict_message, update, rowcount, decide, get,
}
use regulatory_compliance_he.Drafts.Invariant.{HasUniqueIds, IsWellFormed}

abbrev pub find : DraftStore → Text → Option Row
find store draft_id = find_first (has_id draft_id) store

abbrev pub open_count : Option Row → ℕ
open_count none = 0
open_count (some row) = if same_status row.status pending then 1 else 0

rowcount_absent :
    (draft_id : Text) (store : DraftStore)
    → any (has_id draft_id) store ≡ false
    → rowcount draft_id store ≡ 0
unfolding any rowcount
rowcount_absent draft_id [] h = refl
rowcount_absent draft_id (row ∷ rows) h = ground (arith, rowcount_absent draft_id rows)

-- The `UPDATE` changes one row if the draft is open, and none if it is decided or missing.
pub rowcount-find :
    (draft_id : Text) (store : DraftStore)
    → HasUniqueIds store
    → rowcount draft_id store ≡ open_count (find store draft_id)
unfolding rowcount find_first
rowcount-find draft_id [] u = refl
rowcount-find draft_id (row ∷ rows) u = elim (Bool-cases (has_id draft_id row)) [
  | inl e ↦
      rw (e, rowcount_absent draft_id rows (rw ((eq_iff row.draft_id draft_id).0 e) at u.0))
        (ground arith)
  | inr e ↦ rw e (omega (arith, rowcount-find draft_id rows u.1))
]

module _ (draft_id : Text) (decision : DraftStatus) (by remark at : Text) where
  -- What a decision makes of the row that it names.
  abbrev pub settle : Option Row → Option Row
  settle none = none
  settle (some row) =
      some (if same_status row.status pending then decided decision by remark at row else row)

  find-update_self :
      (store : DraftStore)
      → find (update draft_id decision by remark at store) draft_id ≡ settle (find store draft_id)
  unfolding find_first update
  find-update_self [] = refl
  find-update_self (row ∷ rows) = ground (arith, find-update_self rows)

  find-update_ne :
      (store : DraftStore) (j : Text)
      → (draft_id == j) ≡ false
      → find (update draft_id decision by remark at store) j ≡ find store j
  unfolding find_first update
  find-update_ne [] j h = refl
  find-update_ne (row ∷ rows) j h = ground (
    arith,
    find-update_ne rows j h,
    eq_iff row.draft_id draft_id,
    eq_iff row.draft_id j,
    eq_iff draft_id j,
  )

  -- The draft that `decide` answers with, or its refusal.
  abbrev pub verdict : Option Row → Result DraftError Draft
  verdict none = err (conflict (conflict_message draft_id))
  verdict (some row) =
      if same_status row.status pending
      then ok (to_draft (decided decision by remark at row))
      else err (conflict (conflict_message draft_id))

  module _ (store : DraftStore) (w : IsWellFormed store) (final : decision ≢ pending) where
    is_final : (same_status decision approved || same_status decision rejected) ≡ true
    is_final = final_of decision final
      where
        final_of :
            (d : DraftStatus)
            → d ≢ pending
            → (same_status d approved || same_status d rejected) ≡ true
        final_of pending h = absurd (h refl)
        final_of approved h = refl
        final_of rejected h = refl

    pub decide-verdict :
        (decide draft_id decision by remark at store).0 ≡ verdict (find store draft_id)
    unfolding decide get
    decide-verdict =
        rw is_final (ground (arith, rowcount-find draft_id store w.unique, find-update_self store))

    pub decide-find :
        (j : Text)
        → find (decide draft_id decision by remark at store).1 j
          ≡ (if draft_id == j then settle (find store j) else find store j)
    unfolding decide
    decide-find j = rw is_final (
        ground (
          arith,
          rowcount-find draft_id store w.unique,
          find-update_self store,
          find-update_ne store j,
          eq_iff draft_id j,
        ))

    -- A decision to approve or reject succeeds exactly when the draft is open. It then answers with
    -- the draft that names who decided, why and when; otherwise with a conflict. No other draft is
    -- touched, and neither is a draft that is already decided.
    pub decide_lem :
        ((decide draft_id decision by remark at store).0 ≡ verdict (find store draft_id))
        × ((j : Text)
            → find (decide draft_id decision by remark at store).1 j
              ≡ (if draft_id == j then settle (find store j) else find store j))
    decide_lem = (decide-verdict, decide-find)

-- A status other than approved or rejected is refused and changes nothing.
pub decide-pending :
    (draft_id by remark at : Text) (store : DraftStore)
    → decide draft_id pending by remark at store
      ≡ (err (value_error (lit "decision must be approved or rejected")), store)
unfolding decide
decide-pending draft_id by remark at store = refl

-- A conflict changes nothing.
pub conflict_unchanged :
    (draft_id : Text) (decision : DraftStatus) (by remark at : Text) (store : DraftStore) (m : Text)
    (after : DraftStore)
    → decide draft_id decision by remark at store ≡ (err (conflict m), after)
    → after ≡ store
unfolding decide transition found_or
conflict_unchanged draft_id decision by remark at store m after e = ground (arith, e)
