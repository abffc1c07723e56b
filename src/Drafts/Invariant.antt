-- ===== src/Drafts/Invariant.antt =====
-- The invariant of the table of mcp/src/compliance_mcp/drafts.py, and that every write keeps it.
use regulatory_compliance_he.Prelude.{
  Text, ◌≡◌, ◌≢◌, refl, inl, inr, none, some, Bool, false, ◌||◌, List, [], ◌∷◌, ◌++◌, arith, any,
  Bool-cases, nat_eq, eq_iff, is_blank, All, All-append,
}
use regulatory_compliance_he.Models.{
  DraftKind, DraftStatus, pending, approved, rejected, same_status, Draft,
}
use regulatory_compliance_he.Drafts.{
  Row, DraftStore, Stamp, has_id, is_open, to_row, insert, new_draft, create, decided, update,
  rowcount, decide,
}

-- A row is open with no decision, or decided with who, why and when.
abbrev pub IsConsistent : Row → Type 0
IsConsistent row = elim row.status [
  | pending ↦ (row.decision_by ≡ none) × (row.decision_note ≡ none) × (row.decision_at ≡ none)
  | _ ↦
      (by : Text) × (remark : Text) × (at : Text) × (row.decision_by ≡ some by)
      × (row.decision_note ≡ some remark)
      × (row.decision_at ≡ some at)
]

-- No two rows share an id: the primary key.
abbrev pub HasUniqueIds : DraftStore → Type 0
HasUniqueIds [] = Unit
HasUniqueIds (row ∷ rows) = (any (has_id row.draft_id) rows ≡ false) × HasUniqueIds rows

pub record IsWellFormed (store : DraftStore) : Type 0 where
  pub unique : HasUniqueIds store
  pub consistent : All IsConsistent store

any-append : (p : Row → Bool) (xs ys : List Row) → any p (xs ++ ys) ≡ (any p xs || any p ys)
unfolding any
any-append p [] ys = refl
any-append p (x ∷ xs) ys = ground (arith, any-append p xs ys)

-- A new id stays unique when its row goes to the end.
HasUniqueIds-append :
    (store : DraftStore) (row : Row)
    → any (has_id row.draft_id) store ≡ false
    → HasUniqueIds store
    → HasUniqueIds (store ++ row ∷ [])
unfolding any
HasUniqueIds-append [] row h u = (refl, tt)
HasUniqueIds-append (x ∷ xs) row h u = (
  ground (
    arith,
    any-append (has_id x.draft_id) xs (row ∷ []),
    eq_iff x.draft_id row.draft_id,
    eq_iff row.draft_id x.draft_id,
  ),
  HasUniqueIds-append xs row (ground arith) u.1,
)

module _ (draft_id : Text) (decision : DraftStatus) (by remark at : Text) where
  any_id-update :
      (j : Text) (store : DraftStore)
      → any (has_id j) (update draft_id decision by remark at store) ≡ any (has_id j) store
  unfolding any update
  any_id-update j [] = refl
  any_id-update j (row ∷ rows) = elim (Bool-cases (is_open draft_id row)) [
    | inl e ↦ rw (e, any_id-update j rows)
    | inr e ↦ rw (e, any_id-update j rows)
  ]

  HasUniqueIds-update :
      (store : DraftStore)
      → HasUniqueIds store
      → HasUniqueIds (update draft_id decision by remark at store)
  unfolding update
  HasUniqueIds-update [] u = tt
  HasUniqueIds-update (row ∷ rows) u = elim (Bool-cases (is_open draft_id row)) [
    | inl e ↦ rw e (rw any_id-update u.0, HasUniqueIds-update rows u.1)
    | inr e ↦ rw e (rw any_id-update u.0, HasUniqueIds-update rows u.1)
  ]

  All-IsConsistent-update :
      (store : DraftStore)
      → decision ≢ pending
      → All IsConsistent store
      → All IsConsistent (update draft_id decision by remark at store)
  unfolding update
  All-IsConsistent-update [] h c = tt
  All-IsConsistent-update (row ∷ rows) h (c, cs) = elim (Bool-cases (is_open draft_id row)) [
    | inl e ↦ rw e (decided-IsConsistent decision row h, All-IsConsistent-update rows h cs)
    | inr e ↦ rw e (c, All-IsConsistent-update rows h cs)
  ]
    where
      decided-IsConsistent :
          (d : DraftStatus) (r : Row) → d ≢ pending → IsConsistent (decided d by remark at r)
      decided-IsConsistent pending r p = absurd (p refl)
      decided-IsConsistent approved r p = (by, remark, at, refl, refl, refl)
      decided-IsConsistent rejected r p = (by, remark, at, refl, refl, refl)

  update-IsWellFormed :
      (store : DraftStore)
      → decision ≢ pending
      → IsWellFormed store
      → IsWellFormed (update draft_id decision by remark at store)
  update-IsWellFormed store h w = record {
    unique = HasUniqueIds-update store w.unique;
    consistent = All-IsConsistent-update store h w.consistent;
  }

  -- Every decision, refused or not, keeps the table well formed.
  pub decide-IsWellFormed :
      (store : DraftStore)
      → IsWellFormed store
      → IsWellFormed (decide draft_id decision by remark at store).1
  unfolding decide
  decide-IsWellFormed store w =
      elim (Bool-cases (same_status decision approved || same_status decision rejected)) [
        | inl e ↦ rw e (elim (Bool-cases (nat_eq (rowcount draft_id store) 1)) [
          | inl one ↦ rw one (update-IsWellFormed store (λ p. cc (p, e)) w)
          | inr other ↦ rw other w
        ])
        | inr e ↦ rw e w
      ]

insert-IsWellFormed :
    (d : Draft) (store : DraftStore)
    → IsConsistent (to_row d)
    → IsWellFormed store
    → IsWellFormed (insert d store).1
unfolding insert
insert-IsWellFormed d store c w = elim (Bool-cases (any (has_id d.draft_id) store)) [
  | inl taken ↦ rw taken w
  | inr free ↦ rw free (record {
    unique = HasUniqueIds-append store (to_row d) free w.unique;
    consistent = All-append IsConsistent store (to_row d ∷ []) w.consistent (c, tt);
  })
]

-- So does every new draft, refused or not.
pub create-IsWellFormed :
    (sha256 : Text → Text) (stamp : Stamp) (kind : DraftKind) (title body requester : Text)
    (related_ids : List Text) (session_id : Text) (store : DraftStore)
    → IsWellFormed store
    → IsWellFormed (create sha256 stamp kind title body requester related_ids session_id store).1
unfolding create new_draft
create-IsWellFormed sha256 stamp kind title body requester related_ids session_id store w =
    elim (Bool-cases (is_blank title || is_blank body)) [
      | inl e ↦ rw e w
      | inr e ↦ rw e (insert-IsWellFormed _ store (refl, refl, refl) w)
    ]
