-- ===== src/Drafts/Queries.antt =====
-- What the reads of mcp/src/compliance_mcp/drafts.py return.
use mathlib.Core.List.{Perm}
use mathlib.Core.List.Perm
use regulatory_compliance_he.Prelude.{
  Text, ◌≡◌, refl, ap, inl, inr, none, some, Bool, true, false, List, [], ◌∷◌, ◌++◌, map, arith,
  any, keep, find_first, Bool-cases, text_le, ◌==◌, eq_iff, eq_refl, All, ok, if◌then◌else◌,
}
use regulatory_compliance_he.Prelude.Sorting.{IsSorted, by_key, sort_by-Perm, sort_by_key-IsSorted}
use regulatory_compliance_he.Models.{
  DraftKind, DraftStatus, pending, same_status, Draft, DraftSummary,
}
use regulatory_compliance_he.Drafts.{
  Row, DraftStore, Stamp, has_id, to_row, to_draft, to_summary, draft_of, insert, new_draft, create,
  get, older, select_by_status, list,
}

All-keep : (p : Row → Bool) (rows : List Row) → All (λ r. p r ≡ true) (keep p rows)
unfolding keep
All-keep p [] = tt
All-keep p (r ∷ rows) = elim (Bool-cases (p r)) [
  | inl e ↦ rw e (e, All-keep p rows)
  | inr e ↦ rw e (All-keep p rows)
]

All-map_summary :
    (P : DraftSummary → Type 0) (rows : List Row)
    → All (λ r. P (to_summary (to_draft r))) rows
    → All P (map (λ r. to_summary (to_draft r)) rows)
All-map_summary P [] h = tt
All-map_summary P (r ∷ rows) (h, hs) = (h, All-map_summary P rows hs)

IsSorted-map_summary :
    (rows : List Row)
    → IsSorted (by_key (λ r. r.created)) rows
    → IsSorted (by_key (λ s. s.created)) (map (λ r. to_summary (to_draft r)) rows)
unfolding to_draft
IsSorted-map_summary [] h = tt
IsSorted-map_summary (r ∷ rows) (h, hs) =
    (All-map_summary (λ s. text_le r.created s.created ≡ true) rows h, IsSorted-map_summary rows hs)

-- The queue lists every draft of the status asked for and no other, each as often as it is stored,
-- the oldest first.
pub list-IsSorted :
    (store : DraftStore) (status : DraftStatus)
    → IsSorted (by_key (λ s. s.created)) (list store status)
      × Perm
          (list store status)
          (map (λ r. to_summary (to_draft r)) (keep (λ r. same_status r.status status) store))
unfolding list select_by_status
list-IsSorted store status = (
  IsSorted-map_summary _ (sort_by_key-IsSorted (λ (r : Row). r.created) _),
  Perm.map _ (sort_by-Perm older _),
)

find-append_new :
    (store : DraftStore) (row : Row)
    → any (has_id row.draft_id) store ≡ false
    → find_first (has_id row.draft_id) (store ++ row ∷ []) ≡ some row
unfolding find_first any
find-append_new [] row h = ground (arith, eq_refl row.draft_id)
find-append_new (x ∷ xs) row h = ground (arith, find-append_new xs row)

find-append_old :
    (store : DraftStore) (row : Row) (j : Text)
    → (row.draft_id == j) ≡ false
    → find_first (has_id j) (store ++ row ∷ []) ≡ find_first (has_id j) store
unfolding find_first
find-append_old [] row j h = ground arith
find-append_old (x ∷ xs) row j h = ground (arith, find-append_old xs row j h)

module _ (sha256 : Text → Text) (stamp : Stamp) (kind : DraftKind) (title body requester : Text)
    (related_ids : List Text) (session_id : Text) (store : DraftStore) (d : Draft)
    (created : (create sha256 stamp kind title body requester related_ids session_id store).0
      ≡ ok d) where
  abbrev after : DraftStore
  after = (create sha256 stamp kind title body requester related_ids session_id store).1

  abbrev made : Draft
  made = new_draft sha256 stamp kind title body requester related_ids session_id

  create_inversion :
      (d ≡ made) × (any (has_id made.draft_id) store ≡ false) × (after ≡ store ++ to_row made ∷ [])
  unfolding create insert
  create_inversion = ground arith

  get-made : get after made.draft_id ≡ some made
  unfolding get to_draft new_draft
  get-made =
      rw (create_inversion.2, find-append_new store (to_row made) (create_inversion.1), draft_of)

  made_row : to_draft (to_row made) ≡ made
  unfolding to_draft new_draft
  made_row = refl

  get-after : (j : Text) → get after j ≡ (if made.draft_id == j then some made else get store j)
  unfolding get
  get-after j = elim (Bool-cases (made.draft_id == j)) [
    | inl e ↦
        rw (← (eq_iff made.draft_id j).0 e, eq_refl made.draft_id)
          (rw
            (create_inversion.2, find-append_new store (to_row made) (create_inversion.1), draft_of)
            (ap some made_row))
    | inr e ↦ rw (e, create_inversion.2, find-append_old store (to_row made) j e) refl
  ]

  -- A draft that was created is stored as it was returned, pending, without a decision and with the
  -- hash of its body; every other draft is as it was.
  pub get-create :
      (d.status ≡ pending)
      × (d.decision ≡ none)
      × (d.content_sha256 ≡ sha256 body)
      × ((j : Text) → get after j ≡ (if d.draft_id == j then some d else get store j))
  unfolding new_draft
  get-create = rw (create_inversion.0) (refl, refl, refl, get-after)
