-- ===== src/Retention/Deletion.antt =====
-- Which drafts the purge of mcp/src/compliance_mcp/admin_cli.py deletes.
use regulatory_compliance_he.Prelude.{
  Text, ◌≡◌, refl, Option, none, some, Bool, false, not, List, [], ◌∷◌, arith, any, keep,
  find_first, Bool-cases, inl, inr, eq_iff, Result, ok, err, if◌then◌else◌,
}
use regulatory_compliance_he.Prelude.Latest.{keep-All}
use regulatory_compliance_he.Prelude.Map.{Dict}
use regulatory_compliance_he.Json.{Json}
use regulatory_compliance_he.Audit.Writer.{AuditError, AuditLog, Disk, Source}
use regulatory_compliance_he.Drafts.{Row, DraftStore, has_id}
use regulatory_compliance_he.Drafts.Invariant.{IsConsistent, HasUniqueIds, IsWellFormed}
use regulatory_compliance_he.Drafts.Decisions.{find}
use regulatory_compliance_he.Retention.{is_expired, delete_expired, PurgeArgs, World, logged, purge}

any-keep : (p q : Row → Bool) (rows : List Row) → any p rows ≡ false → any p (keep q rows) ≡ false
unfolding any keep
any-keep p q [] h = refl
any-keep p q (r ∷ rows) h = ground (arith, h, any-keep p q rows)

keep-HasUniqueIds :
    (q : Row → Bool) (rows : List Row) → HasUniqueIds rows → HasUniqueIds (keep q rows)
unfolding keep
keep-HasUniqueIds q [] h = tt
keep-HasUniqueIds q (r ∷ rows) (h, hs) = elim (Bool-cases (q r)) [
  | inl e ↦ rw e (any-keep (has_id r.draft_id) q rows h, keep-HasUniqueIds q rows hs)
  | inr e ↦ rw e (keep-HasUniqueIds q rows hs)
]

-- A row that is not expired stays; another is gone.
abbrev pub spared : Text → Option Row → Option Row
spared cutoff none = none
spared cutoff (some row) = if is_expired cutoff row then none else some row

find_absent : (rows : List Row) (j : Text) → any (has_id j) rows ≡ false → find rows j ≡ none
unfolding any find_first
find_absent [] j h = refl
find_absent (r ∷ rows) j h = ground (arith, h, find_absent rows j)

pub find-delete_expired :
    (cutoff j : Text) (rows : List Row)
    → HasUniqueIds rows
    → find (delete_expired cutoff rows) j ≡ spared cutoff (find rows j)
unfolding delete_expired keep find_first
find-delete_expired cutoff j [] u = refl
find-delete_expired cutoff j (r ∷ rows) (new, u) = elim (Bool-cases (has_id j r)) [
  | inl e ↦ elim (Bool-cases (is_expired cutoff r)) [
    | inl gone ↦
        rw (gone, e, gone)
          (find_absent (delete_expired cutoff rows) j (
            any-keep (has_id j) (λ row. not (is_expired cutoff row)) rows
              (rw ((eq_iff r.draft_id j).0 e) at new)))
    | inr stays ↦ rw (stays, e, stays) refl
  ]
  | inr e ↦ elim (Bool-cases (is_expired cutoff r)) [
    | inl gone ↦ rw (gone, e) (find-delete_expired cutoff j rows u)
    | inr stays ↦ rw (stays, e) (find-delete_expired cutoff j rows u)
  ]
]

pub delete_expired-IsWellFormed :
    (cutoff : Text) (rows : List Row)
    → IsWellFormed rows
    → IsWellFormed (delete_expired cutoff rows)
unfolding delete_expired
delete_expired-IsWellFormed cutoff rows wf = record {
  unique = keep-HasUniqueIds (λ row. not (is_expired cutoff row)) rows wf.unique;
  consistent = keep-All IsConsistent (λ row. not (is_expired cutoff row)) rows wf.consistent;
}

module _ (sha256 : Text → Text) (hmac : Text → Text → Text) (log : AuditLog) (source : Source)
    (is_old : Text → Bool) (p : PurgeArgs) where
  logged-drafts :
      (r : Result AuditError (Dict Json) × Disk) (drafts : DraftStore)
      → (logged r drafts).1.drafts ≡ drafts
  logged-drafts (ok rec, disk) drafts = refl
  logged-drafts (err e, disk) drafts = refl

  -- The purge, applied, deletes exactly the drafts that are decided and were decided before the
  -- cut-off: a pending draft is never deleted, and each other draft that stays is found as it was.
  -- Without `--apply` every draft stays. The table is well formed afterwards if it was before.
  pub purge-spares :
      (w : World)
      → IsWellFormed w.drafts
      → IsWellFormed (purge sha256 hmac log source is_old p w).1.drafts
        × ((j : Text)
            → find (purge sha256 hmac log source is_old p w).1.drafts j
              ≡ (if p.apply then spared p.cutoff (find w.drafts j) else find w.drafts j))
  unfolding purge
  purge-spares w wf = elim (Bool-cases p.apply) [
    | inl applied ↦
        rw (applied, logged-drafts)
          (
            delete_expired-IsWellFormed p.cutoff w.drafts wf,
            λ j. find-delete_expired p.cutoff j w.drafts wf.unique,
          )
    | inr dry ↦ rw dry (wf, λ j. refl)
  ]
