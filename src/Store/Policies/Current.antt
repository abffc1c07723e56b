-- ===== src/Store/Policies/Current.antt =====
-- What `current` of mcp/src/compliance_mcp/store.py lists for each policy.
use regulatory_compliance_he.Prelude.{
  Text, ◌≡◌, ◌⊎◌, refl, subst, sym, Option, none, some, Bool, true, false, ◌&&◌, List, [], ◌∷◌,
  arith, keep, find_first, sort_by, ◌==◌, eq_iff, Bool-cases, inl, inr,
}
use regulatory_compliance_he.Prelude.Map.{Dict, get, put, values, get-put}
use regulatory_compliance_he.Prelude.Order.{text_le_total, text_le_trans}
use regulatory_compliance_he.Prelude.Sorting.{IsSorted, by_key, sort_by_key-IsSorted}
use regulatory_compliance_he.Prelude.Latest.{keep-sort_by, IsGreatest}
use regulatory_compliance_he.Models.{Policy}
use regulatory_compliance_he.Store.Policies.{
  is_approved, is_newer, keep_latest, latest_from, id_order, date_order, current,
}
use regulatory_compliance_he.Store.Policies.Versions.{
  approved_versions, BeatsAll, latest_from-BeatsAll,
}

-- At most one element, as a list.
abbrev to_list : Option Policy → List Policy
to_list none = []
to_list (some d) = d ∷ []

abbrev first? : List Policy → Option Policy
first? [] = none
first? (d ∷ ds) = some d

find_first-keep : (p : Policy → Bool) (xs : List Policy) → find_first p xs ≡ first? (keep p xs)
unfolding find_first keep
find_first-keep p [] = refl
find_first-keep p (x ∷ xs) = ground (arith, find_first-keep p xs)

-- Every value stands under its own id, and no id has two values.
abbrev IsKeyed : Dict Policy → Type 0
IsKeyed [] = Unit
IsKeyed ((k, x) ∷ latest) = (k ≡ x.policy_id) × (get latest k ≡ none) × IsKeyed latest

keep-values :
    (latest : Dict Policy) (policy_id : Text)
    → IsKeyed latest
    → keep (λ d. d.policy_id == policy_id) (values latest) ≡ to_list (get latest policy_id)
unfolding values get keep
keep-values [] policy_id h = refl
keep-values ((k, x) ∷ latest) policy_id (same, new, h) =
    ground (arith, keep-values latest policy_id h, eq_iff k policy_id, eq_iff x.policy_id policy_id)

put-IsKeyed :
    (latest : Dict Policy) (d : Policy) → IsKeyed latest → IsKeyed (put latest d.policy_id d)
unfolding put get
put-IsKeyed [] d h = (refl, refl, tt)
put-IsKeyed ((k, x) ∷ latest) d (same, new, h) = elim (Bool-cases (k == d.policy_id)) [
  | inl e ↦ rw e ((eq_iff k d.policy_id).0 e, new, h)
  | inr e ↦ rw e (
    same,
    ground (arith, get-put latest d.policy_id k d, eq_iff k d.policy_id, eq_iff d.policy_id k),
    put-IsKeyed latest d h,
  )
]

latest_from-IsKeyed :
    (docs : List Policy) (latest : Dict Policy) → IsKeyed latest → IsKeyed (latest_from latest docs)
unfolding latest_from keep_latest
latest_from-IsKeyed [] latest h = h
latest_from-IsKeyed (d ∷ docs) latest h =
    latest_from-IsKeyed docs (keep_latest latest d) (kept (Bool-cases _))
  where
    kept :
        ((is_approved d && is_newer d (get latest d.policy_id)) ≡ true)
          ⊎ ((is_approved d && is_newer d (get latest d.policy_id)) ≡ false)
        → IsKeyed (keep_latest latest d)
    kept (inl e) = rw e (put-IsKeyed latest d h)
    kept (inr e) = rw e h

sort_by-to_list : (o : Option Policy) → sort_by id_order (to_list o) ≡ to_list o
unfolding sort_by
sort_by-to_list none = refl
sort_by-to_list (some d) = refl

-- The listed version of a policy is the one that the loop has found.
find-current :
    (docs : List Policy) (policy_id : Text)
    → find_first (λ d. d.policy_id == policy_id) (current docs)
      ≡ get (latest_from [] docs) policy_id
unfolding current
find-current docs policy_id =
    rw
      (
        find_first-keep (λ d. d.policy_id == policy_id)
            (sort_by id_order (values (latest_from [] docs))),
        keep-sort_by id_order (λ a b. text_le_total a.policy_id b.policy_id)
            (λ a b c. text_le_trans a.policy_id b.policy_id c.policy_id)
            (λ d. d.policy_id == policy_id) (values (latest_from [] docs)),
        keep-values (latest_from [] docs) policy_id (latest_from-IsKeyed docs [] tt),
        sort_by-to_list (get (latest_from [] docs) policy_id),
      )
      (first-to_list (get (latest_from [] docs) policy_id))
  where
    first-to_list : (o : Option Policy) → first? (to_list o) ≡ o
    first-to_list none = refl
    first-to_list (some d) = refl

-- The policies are listed by id. The one listed under an id is an approved version of that policy
-- and none such is effective later than it; an id is not listed exactly if it has no approved
-- version.
pub current_lem :
    (docs : List Policy) (policy_id : Text)
    → IsSorted (by_key (λ d. d.policy_id)) (current docs)
      × IsGreatest date_order
          (approved_versions docs policy_id)
          (find_first (λ d. d.policy_id == policy_id) (current docs))
unfolding current get
current_lem docs policy_id = (
  sort_by_key-IsSorted (λ (d : Policy). d.policy_id) _,
  subst (IsGreatest date_order (approved_versions docs policy_id))
      (sym (find-current docs policy_id))
      (greatest (get (latest_from [] docs) policy_id) (latest_from-BeatsAll docs policy_id [])),
)
  where
    greatest :
        (o : Option Policy)
        → BeatsAll (approved_versions docs policy_id) none o
        → IsGreatest date_order (approved_versions docs policy_id) o
    greatest none (e, f) = e
    greatest (some d) (inl m, h, k) = (m, h)
    greatest (some d) (inr e, h, k) = absurd (cc e)
