-- ===== src/Drafts.antt =====
-- mcp/src/compliance_mcp/drafts.py: the review queue. The SQLite table is the list of its rows in
-- the order of insertion; a write transaction is one function from table to table. The JSON array of
-- related ids is the list that it encodes, and SHA-256 is a parameter.
pub mod Invariant
pub mod Decisions
pub mod Queries
pub mod History
use regulatory_compliance_he.Prelude.{
  Text, lit, ℕ, zero, suc, ◌+◌, Option, none, some, Bool, true, false, not, ◌&&◌, ◌||◌, List, [],
  ◌∷◌, ◌++◌, map, take, keep, any, find_first, sort_by, Result, ok, err, ◌==◌, is_empty, is_blank,
  strip, text_le, nat_eq, if◌then◌else◌,
}
use regulatory_compliance_he.Models.{
  DraftKind, DraftStatus, pending, approved, rejected, same_status, Decision, Draft, DraftSummary,
}

-- A row of the table `drafts`.
pub record Row : Type 0 where
  pub draft_id : Text
  pub kind : DraftKind
  pub title : Text
  pub body : Text
  pub requester : Text
  pub session_id : Text
  pub related_ids : List Text
  pub created : Text
  pub status : DraftStatus
  pub content_sha256 : Text
  pub decision_by : Option Text
  pub decision_note : Option Text
  pub decision_at : Option Text

abbrev pub DraftStore : Type 0
DraftStore = List Row

-- `DraftConflict`, the `ValueError`s, the failed `assert`, and SQLite's refusal of a second row with
-- the same primary key.
pub data DraftError : Type 0 where
  conflict : Text → DraftError
  value_error : Text → DraftError
  integrity_error : DraftError
  assertion_error : DraftError

-- What `create` reads from the clock and the random source: the day, the hexadecimal digits of a
-- UUID and the time.
pub record Stamp : Type 0 where
  pub day : Text
  pub hex : Text
  pub now : Text

text_or : Option Text → Text → Text
text_or none d = d
text_or (some t) d = t

-- `Decision(...) if row["decision_by"] else None`; a decided row has a time.
row_decision : Option Text → Option Text → Option Text → Option Decision
unfolding text_or
row_decision none remark time = none
row_decision (some by) remark time =
    if is_empty by
    then none
    else some (record { by = by; note = text_or remark []; at = text_or time [] })

unfoldable pub to_draft : Row → Draft
unfolding row_decision
to_draft row = record {
  draft_id = row.draft_id;
  kind = row.kind;
  title = row.title;
  body = row.body;
  requester = row.requester;
  session_id = row.session_id;
  related_ids = row.related_ids;
  created = row.created;
  status = row.status;
  content_sha256 = row.content_sha256;
  decision = row_decision row.decision_by row.decision_note row.decision_at;
}

abbrev pub has_id : Text → Row → Bool
has_id draft_id row = row.draft_id == draft_id

abbrev pub to_row : Draft → Row
to_row d = record {
  draft_id = d.draft_id;
  kind = d.kind;
  title = d.title;
  body = d.body;
  requester = d.requester;
  session_id = d.session_id;
  related_ids = d.related_ids;
  created = d.created;
  status = d.status;
  content_sha256 = d.content_sha256;
  decision_by = none;
  decision_note = none;
  decision_at = none;
}

-- The `INSERT` of `create`, under the primary key.
unfoldable pub insert : Draft → DraftStore → Result DraftError Draft × DraftStore
insert d store =
    if any (has_id d.draft_id) store
    then (err integrity_error, store)
    else (ok d, store ++ to_row d ∷ [])

module _ (sha256 : Text → Text) where
  unfoldable pub new_draft : Stamp → DraftKind → Text → Text → Text → List Text → Text → Draft
  new_draft stamp kind title body requester related_ids session_id = record {
    draft_id = lit "D-" ++ (stamp.day ++ (lit "-" ++ take 8 stamp.hex));
    kind = kind;
    title = strip title;
    body = body;
    requester = requester;
    session_id = session_id;
    related_ids = related_ids;
    created = stamp.now;
    status = pending;
    content_sha256 = sha256 body;
    decision = none;
  }

  unfoldable pub create :
      Stamp
      → DraftKind
      → Text
      → Text
      → Text
      → List Text
      → Text
      → DraftStore
      → Result DraftError Draft × DraftStore
  create stamp kind title body requester related_ids session_id store =
      if is_blank title || is_blank body
      then (err (value_error (lit "title and body are required")), store)
      else insert (new_draft stamp kind title body requester related_ids session_id) store

draft_of : Option Row → Option Draft
draft_of none = none
draft_of (some row) = some (to_draft row)

unfoldable pub get : DraftStore → Text → Option Draft
unfolding draft_of
get store draft_id = draft_of (find_first (has_id draft_id) store)

-- `draft_id = ? AND status = 'pending'`
abbrev pub is_open : Text → Row → Bool
is_open draft_id row = (row.draft_id == draft_id) && same_status row.status pending

abbrev pub decided : DraftStatus → Text → Text → Text → Row → Row
decided decision by note at row = record row {
  status = decision;
  decision_by = some by;
  decision_note = some note;
  decision_at = some at;
}

-- The conditional `UPDATE`, and the number of rows that it changes.
unfoldable pub update : Text → DraftStatus → Text → Text → Text → DraftStore → DraftStore
update draft_id decision by note at [] = []
update draft_id decision by note at (row ∷ rows) =
    (if is_open draft_id row then decided decision by note at row else row)
    ∷ update draft_id decision by note at rows

unfoldable pub rowcount : Text → DraftStore → ℕ
rowcount draft_id [] = 0
rowcount draft_id (row ∷ rows) = (if is_open draft_id row then 1 else 0) + rowcount draft_id rows

pub found_or : Option Draft → DraftError → Result DraftError Draft
found_or none e = err e
found_or (some d) e = ok d

pub conflict_message : Text → Text
conflict_message draft_id =
    lit "draft " ++ (draft_id ++ lit " is not pending (missing or already decided)")

-- The rest of `decide` after its first test: the transaction, and the draft read back.
unfoldable pub transition :
    Text → DraftStatus → Text → Text → Text → DraftStore → Result DraftError Draft × DraftStore
unfolding found_or
transition draft_id decision by note at store =
    if nat_eq (rowcount draft_id store) 1
    then (let store' = update draft_id decision by note at store in
        (found_or (get store' draft_id) assertion_error, store'))
    else (err (conflict (conflict_message draft_id)), store)

unfoldable pub decide :
    Text → DraftStatus → Text → Text → Text → DraftStore → Result DraftError Draft × DraftStore
unfolding transition
decide draft_id decision by note at store =
    if same_status decision approved || same_status decision rejected
    then transition draft_id decision by note at store
    else (err (value_error (lit "decision must be approved or rejected")), store)

abbrev pub to_summary : Draft → DraftSummary
to_summary d = record {
  draft_id = d.draft_id;
  kind = d.kind;
  title = d.title;
  requester = d.requester;
  created = d.created;
  status = d.status;
  decision = d.decision;
}

abbrev pub older : Row → Row → Bool
older a b = text_le a.created b.created

-- `SELECT * ... WHERE status = ? ORDER BY created`
unfoldable pub select_by_status : DraftStatus → DraftStore → List Row
select_by_status status store = sort_by older (keep (λ row. same_status row.status status) store)

unfoldable pub list : DraftStore → DraftStatus → List DraftSummary
list store status = map (λ row. to_summary (to_draft row)) (select_by_status status store)
