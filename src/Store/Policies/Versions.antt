-- ===== src/Store/Policies/Versions.antt =====
-- Which version of a policy mcp/src/compliance_mcp/store.py answers with.
use regulatory_compliance_he.Prelude.{
  Text, ◌≡◌, ◌⊎◌, refl, subst, ◌∙◌, Option, none, some, true, false, ◌&&◌, List, [], ◌∷◌, arith,
  keep, All, Memᴰ, ◌==◌, eq_iff, eq_refl, text_le, text_lt, Bool-cases, Option-cases, inl, inr,
  if◌then◌else◌,
}
use regulatory_compliance_he.Prelude.Map.{Dict, get, get-put, get-put_self}
use regulatory_compliance_he.Prelude.Order.{
  text_le_total, text_le_trans, text_lt_irrefl, text_lt_trans,
}
use regulatory_compliance_he.Prelude.Latest.{keep-keep, IsGreatest, last-keep-sort_by}
use regulatory_compliance_he.Models.{Policy}
use regulatory_compliance_he.Store.Policies.{
  is_approved, is_newer, keep_latest, latest_from, date_order, versions, in_force, version_as_of,
}

-- The approved versions of a policy in force on a day.
abbrev pub candidates : List Policy → Text → Text → List Policy
candidates docs policy_id as_of = keep (λ d. (d.policy_id == policy_id) && in_force as_of d) docs

text_le_refl : (t : Text) → text_le t t ≡ true
text_le_refl t = rw text_lt_irrefl

-- The version in force on a day is an approved version of that policy, effective by then, and none
-- such is effective later than it; there is no answer exactly if there is no such version.
pub version_as_of_lem :
    (docs : List Policy) (policy_id as_of : Text)
    → IsGreatest date_order (candidates docs policy_id as_of) (version_as_of docs policy_id as_of)
unfolding version_as_of versions
version_as_of_lem docs policy_id as_of =
    rw (← keep-keep (in_force as_of) (λ (d : Policy). d.policy_id == policy_id) docs) (
      last-keep-sort_by date_order (λ a b. text_le_total a.effective_date b.effective_date)
        (λ a b c. text_le_trans a.effective_date b.effective_date c.effective_date)
        (λ d. text_le_refl d.effective_date) (in_force as_of)
        (keep (λ d. d.policy_id == policy_id) docs))

-- The approved versions of a policy.
abbrev pub approved_versions : List Policy → Text → List Policy
approved_versions docs policy_id = keep (λ d. (d.policy_id == policy_id) && is_approved d) docs

-- The answer from the rest of the files, given the version found so far.
abbrev pub BeatsAll : List Policy → Option Policy → Option Policy → Type 0
BeatsAll docs start none = (docs ≡ []) × (start ≡ none)
BeatsAll docs start (some d) =
    (Memᴰ d docs ⊎ (start ≡ some d))
    × All (λ e. date_order e d ≡ true) docs
    × elim start [ none ↦ Unit | some s ↦ date_order s d ≡ true ]

le_of_lt : (s t u : Text) → text_lt s t ≡ true → text_le t u ≡ true → text_le s u ≡ true
le_of_lt s t u h k = text_le_trans s t u (ground (arith, text_lt_trans s t s, text_lt_irrefl s)) k

BeatsAll-new :
    (d : Policy) (docs : List Policy) (start found : Option Policy)
    → is_newer d start ≡ true
    → BeatsAll docs (some d) found
    → BeatsAll (d ∷ docs) start found
BeatsAll-new d docs start none n (e, f) = absurd (cc f)
BeatsAll-new d docs none (some x) n (m, h, k) = (inl (grown m), (k, h), tt)
  where
    grown : Memᴰ x docs ⊎ (some d ≡ some x) → Memᴰ x (d ∷ docs)
    grown (inl i) = Memᴰ.tail i
    grown (inr e) = Memᴰ.head (cc e)
BeatsAll-new d docs (some s) (some x) n (m, h, k) =
    (inl (grown m), (k, h), le_of_lt s.effective_date d.effective_date x.effective_date n k)
  where
    grown : Memᴰ x docs ⊎ (some d ≡ some x) → Memᴰ x (d ∷ docs)
    grown (inl i) = Memᴰ.tail i
    grown (inr e) = Memᴰ.head (cc e)

BeatsAll-old :
    (d : Policy) (docs : List Policy) (start found : Option Policy)
    → is_newer d start ≡ false
    → BeatsAll docs start found
    → BeatsAll (d ∷ docs) start found
BeatsAll-old d docs none found n b = absurd (cc n)
BeatsAll-old d docs (some s) none n (e, f) = absurd (cc f)
BeatsAll-old d docs (some s) (some x) n (m, h, k) = (
  grown m,
  (text_le_trans d.effective_date s.effective_date x.effective_date (ground (arith, n)) k, h),
  k,
)
  where
    grown : Memᴰ x docs ⊎ (some s ≡ some x) → Memᴰ x (d ∷ docs) ⊎ (some s ≡ some x)
    grown (inl i) = inl (Memᴰ.tail i)
    grown (inr e) = inr e

get-keep_latest :
    (latest : Dict Policy) (d : Policy) (policy_id : Text)
    → get (keep_latest latest d) policy_id ≡ (
        if (d.policy_id == policy_id) && is_approved d && is_newer d (get latest policy_id)
        then some d
        else get latest policy_id)
unfolding keep_latest
get-keep_latest latest d policy_id = elim (Bool-cases (d.policy_id == policy_id)) [
  | inl e ↦
      rw (← (eq_iff d.policy_id policy_id).0 e, eq_refl d.policy_id)
        (ground (arith, get-put_self latest d.policy_id d))
  | inr e ↦ ground (arith, e, get-put latest d.policy_id policy_id d)
]

pub latest_from-BeatsAll :
    (docs : List Policy) (policy_id : Text) (latest : Dict Policy)
    → BeatsAll
        (approved_versions docs policy_id)
        (get latest policy_id)
        (get (latest_from latest docs) policy_id)
unfolding latest_from keep keep_latest
latest_from-BeatsAll [] policy_id latest = elim (Option-cases (get latest policy_id)) [
  | inl e ↦ rw e (refl, refl)
  | inr (d, e) ↦ rw e (inr refl, tt, text_le_refl d.effective_date)
]
latest_from-BeatsAll (d ∷ docs) policy_id latest =
    let rest = latest_from-BeatsAll docs policy_id (keep_latest latest d) in
    let others = approved_versions docs policy_id in
    let found = get (latest_from (keep_latest latest d) docs) policy_id in
    let step = get-keep_latest latest d policy_id in
    elim (Bool-cases ((d.policy_id == policy_id) && is_approved d)) [
      | inl e ↦ elim (Bool-cases (is_newer d (get latest policy_id))) [
        | inl n ↦ rw e (
            BeatsAll-new d others (get latest policy_id) found n
              (subst (λ o. BeatsAll others o found) (step ∙ chosen e n) rest))
        | inr n ↦ rw e (
            BeatsAll-old d others (get latest policy_id) found n
              (subst (λ o. BeatsAll others o found) (step ∙ kept n) rest))
      ]
      | inr e ↦ rw e (subst (λ o. BeatsAll others o found) (step ∙ skipped e) rest)
    ]
  where
    chosen :
        ((d.policy_id == policy_id) && is_approved d) ≡ true
        → is_newer d (get latest policy_id) ≡ true
        → (if (d.policy_id == policy_id) && is_approved d && is_newer d (get latest policy_id)
            then some d
            else get latest policy_id)
          ≡ some d
    chosen e n = ground (arith, e, n)

    kept :
        is_newer d (get latest policy_id) ≡ false
        → (if (d.policy_id == policy_id) && is_approved d && is_newer d (get latest policy_id)
            then some d
            else get latest policy_id)
          ≡ get latest policy_id
    kept n = ground (arith, n)

    skipped :
        ((d.policy_id == policy_id) && is_approved d) ≡ false
        → (if (d.policy_id == policy_id) && is_approved d && is_newer d (get latest policy_id)
            then some d
            else get latest policy_id)
          ≡ get latest policy_id
    skipped e = ground (arith, e)
