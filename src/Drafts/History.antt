-- ===== src/Drafts/History.antt =====
-- Histories of the review queue of mcp/src/compliance_mcp/drafts.py: the server and the reviewers
-- write in any order, each write one transaction.
use regulatory_compliance_he.Prelude.{
  Text, ℕ, ◌+◌, ◌≤◌, ◌≡◌, ◌≢◌, refl, inl, inr, some, List, [], ◌∷◌, ◌++◌, arith, find_first,
  Bool-cases, Option-cases, ◌==◌, eq_iff, eq_refl, Result, ok, err, if◌then◌else◌,
}
use regulatory_compliance_he.Models.{
  DraftKind, DraftStatus, pending, approved, rejected, same_status, Draft,
}
use regulatory_compliance_he.Drafts.{
  Row, DraftStore, DraftError, Stamp, to_row, insert, new_draft, create, decided, decide,
}
use regulatory_compliance_he.Drafts.Invariant.{
  IsWellFormed, create-IsWellFormed, decide-IsWellFormed,
}
use regulatory_compliance_he.Drafts.Decisions.{find, decide-find, decide-verdict, decide-pending}

pub data Write : Type 0 where
  creates : Stamp → DraftKind → Text → Text → Text → List Text → Text → Write
  decides : Text → DraftStatus → Text → Text → Text → Write

pub step : (Text → Text) → DraftStore → Write → DraftStore
step sha256 store (creates stamp kind title body requester related_ids session_id) =
    (create sha256 stamp kind title body requester related_ids session_id store).1
step sha256 store (decides draft_id decision by remark at) =
    (decide draft_id decision by remark at store).1

pub run : (Text → Text) → DraftStore → List Write → DraftStore
run sha256 store [] = store
run sha256 store (x ∷ xs) = run sha256 (step sha256 store x) xs

find-append-some :
    (store : DraftStore) (j : Text) (row new : Row)
    → find store j ≡ some row
    → find (store ++ new ∷ []) j ≡ some row
unfolding find_first
find-append-some [] j row new h = cc
find-append-some (x ∷ xs) j row new h = ground (arith, find-append-some xs j row new)

find-create-some :
    (sha256 : Text → Text) (stamp : Stamp) (kind : DraftKind) (title body requester : Text)
    (related_ids : List Text) (session_id : Text) (store : DraftStore) (j : Text) (row : Row)
    → find store j ≡ some row
    → find (create sha256 stamp kind title body requester related_ids session_id store).1 j
      ≡ some row
unfolding create insert new_draft
find-create-some sha256 stamp kind title body requester related_ids session_id store j row h =
    ground (
      arith,
      find-append-some store j row
          (to_row (new_draft sha256 stamp kind title body requester related_ids session_id)) h,
    )

abbrev pub IsDecided : Row → Type 0
IsDecided row = row.status ≢ pending

find-decide_decided :
    (draft_id : Text) (decision : DraftStatus) (by remark at : Text) (store : DraftStore) (j : Text)
    (row : Row)
    → IsWellFormed store
    → IsDecided row
    → find store j ≡ some row
    → find (decide draft_id decision by remark at store).1 j ≡ some row
find-decide_decided draft_id pending by remark at store j row w d h =
    rw (decide-pending draft_id by remark at store) h
find-decide_decided draft_id approved by remark at store j row w d h =
    ground (arith, decide-find draft_id approved by remark at store w (λ p. cc p) j)
find-decide_decided draft_id rejected by remark at store j row w d h =
    ground (arith, decide-find draft_id rejected by remark at store w (λ p. cc p) j)

pub step-IsWellFormed :
    (sha256 : Text → Text) (store : DraftStore) (x : Write)
    → IsWellFormed store
    → IsWellFormed (step sha256 store x)
unfolding step
step-IsWellFormed sha256 store (creates stamp kind title body requester related_ids session_id) w =
    create-IsWellFormed sha256 stamp kind title body requester related_ids session_id store w
step-IsWellFormed sha256 store (decides draft_id decision by remark at) w =
    decide-IsWellFormed draft_id decision by remark at store w

-- Whatever is written, in whatever order and refused or not, a well-formed table stays so: its ids are
-- unique, and each row is open without a decision or decided with one.
pub run-IsWellFormed :
    (sha256 : Text → Text) (store : DraftStore) (xs : List Write)
    → IsWellFormed store
    → IsWellFormed (run sha256 store xs)
unfolding run
run-IsWellFormed sha256 store [] w = w
run-IsWellFormed sha256 store (x ∷ xs) w =
    run-IsWellFormed sha256 (step sha256 store x) xs (step-IsWellFormed sha256 store x w)

pub find-step_decided :
    (sha256 : Text → Text) (store : DraftStore) (x : Write) (j : Text) (row : Row)
    → IsWellFormed store
    → IsDecided row
    → find store j ≡ some row
    → find (step sha256 store x) j ≡ some row
unfolding step
find-step_decided sha256 store (creates stamp kind title body requester related_ids session_id) j
      row w d h =
    find-create-some sha256 stamp kind title body requester related_ids session_id store j row h
find-step_decided sha256 store (decides draft_id decision by remark at) j row w d h =
    find-decide_decided draft_id decision by remark at store j row w d h

abbrev success : Result DraftError Draft → ℕ
success (ok _) = 1
success (err _) = 0

-- Whether a write decides the draft `j`.
abbrev win : Text → DraftStore → Write → ℕ
win j store (creates _ _ _ _ _ _ _) = 0
win j store (decides draft_id decision by remark at) =
    if draft_id == j then success (decide draft_id decision by remark at store).0 else 0

-- How many writes of a history decide the draft `j`.
abbrev pub wins : (Text → Text) → Text → DraftStore → List Write → ℕ
wins sha256 j store [] = 0
wins sha256 j store (x ∷ xs) = win j store x + wins sha256 j (step sha256 store x) xs

decide_again :
    (j : Text) (decision : DraftStatus) (by remark at : Text) (store : DraftStore) (row : Row)
    → IsWellFormed store
    → IsDecided row
    → find store j ≡ some row
    → success (decide j decision by remark at store).0 ≡ 0
decide_again j pending by remark at store row w d h = rw (decide-pending j by remark at store)
decide_again j approved by remark at store row w d h =
    ground (arith, decide-verdict j approved by remark at store w (λ p. cc p))
decide_again j rejected by remark at store row w d h =
    ground (arith, decide-verdict j rejected by remark at store w (λ p. cc p))

-- A decided draft is not decided again.
wins_decided :
    (sha256 : Text → Text) (j : Text) (store : DraftStore) (xs : List Write) (row : Row)
    → IsWellFormed store
    → IsDecided row
    → find store j ≡ some row
    → wins sha256 j store xs ≡ 0
wins_decided sha256 j store [] row w d h = refl
wins_decided sha256 j store (x ∷ xs) row w d h = omega (
  arith,
  win_decided x,
  wins_decided sha256 j (step sha256 store x) xs row (step-IsWellFormed sha256 store x w) d
      (find-step_decided sha256 store x j row w d h),
)
  where
    win_decided : (y : Write) → win j store y ≡ 0
    win_decided (creates _ _ _ _ _ _ _) = refl
    win_decided (decides draft_id decision by remark at) = elim (Bool-cases (draft_id == j)) [
      | inl e ↦
          rw (e, (eq_iff draft_id j).0 e) (decide_again j decision by remark at store row w d h)
      | inr e ↦ rw e
    ]

-- What a decision leaves of the draft that it names.
data Settled (j : Text) (r : Result DraftError Draft) (after : DraftStore) : Type 0 where
  refused : success r ≡ 0 → Settled j r after
  settled :
      success r ≡ 1 → (row : Row) → IsDecided row → find after j ≡ some row → Settled j r after

module _ (j : Text) (decision : DraftStatus) (by remark at : Text) (store : DraftStore) where
  decide_final-Settled :
      IsWellFormed store
      → decision ≢ pending
      → Settled j (decide j decision by remark at store).0 (decide j decision by remark at store).1
  decide_final-Settled w final = elim (Option-cases (find store j)) [
    | inl e ↦ refused (ground (arith, decide-verdict j decision by remark at store w final, e))
    | inr (row, e) ↦ elim (Bool-cases (same_status row.status pending)) [
      | inl opened ↦
          settled (ground (arith, decide-verdict j decision by remark at store w final, e, opened))
            (decided decision by remark at row) final
            (ground
              (arith, decide-find j decision by remark at store w final j, e, opened, eq_refl j))
      | inr closed ↦
          refused (ground (arith, decide-verdict j decision by remark at store w final, e, closed))
    ]
  ]

decide-Settled :
    (j : Text) (decision : DraftStatus) (by remark at : Text) (store : DraftStore)
    → IsWellFormed store
    → Settled j (decide j decision by remark at store).0 (decide j decision by remark at store).1
decide-Settled j pending by remark at store w = refused (rw (decide-pending j by remark at store))
decide-Settled j approved by remark at store w =
    decide_final-Settled j approved by remark at store w (λ p. cc p)
decide-Settled j rejected by remark at store w =
    decide_final-Settled j rejected by remark at store w (λ p. cc p)

wins_decides :
    (sha256 : Text → Text) (j : Text) (store after : DraftStore) (xs : List Write)
    (r : Result DraftError Draft)
    → IsWellFormed after
    → Settled j r after
    → wins sha256 j after xs ≤ 1
    → success r + wins sha256 j after xs ≤ 1
wins_decides sha256 j store after xs r w (refused e) rest = omega (arith, e, rest)
wins_decides sha256 j store after xs r w (settled e row d h) rest =
    omega (arith, e, wins_decided sha256 j after xs row w d h)

-- Whatever the writes, however the reviewers race: a draft is decided at most once.
pub wins-le-one :
    (sha256 : Text → Text) (j : Text) (store : DraftStore) (xs : List Write)
    → IsWellFormed store
    → wins sha256 j store xs ≤ 1
unfolding step
wins-le-one sha256 j store [] w = omega arith
wins-le-one sha256 j store (creates stamp kind title body requester related_ids session_id ∷ xs) w =
    omega (
      arith,
      wins-le-one sha256 j _ xs (
          create-IsWellFormed sha256 stamp kind title body requester related_ids session_id store
            w),
    )
wins-le-one sha256 j store (decides draft_id decision by remark at ∷ xs) w =
    let kept = decide-IsWellFormed draft_id decision by remark at store w in
    let rest = wins-le-one sha256 j (decide draft_id decision by remark at store).1 xs kept in
    elim (Bool-cases (draft_id == j)) [
      | inl e ↦ rw e (
          wins_decides sha256 j store _ xs _ kept
            (rw ((eq_iff draft_id j).0 e) (decide-Settled j decision by remark at store w)) rest)
      | inr e ↦ rw e (omega (arith, rest))
    ]
