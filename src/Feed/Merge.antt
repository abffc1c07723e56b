-- ===== src/Feed/Merge.antt =====
-- What the merge of mcp/src/compliance_mcp/feed_fetcher.py keeps.
use mathlib.Core.List.{append-nil}
use regulatory_compliance_he.Prelude.{
  Text, ◌≡◌, refl, sym, ap, Option, none, some, ◌∙◌, Bool, true, false, ◌||◌, List, [], ◌∷◌, ◌++◌,
  arith, any, keep, ◌==◌, eq_iff, eq_refl, Bool-cases, inl, inr,
}
use regulatory_compliance_he.Prelude.Map.{Dict, get, put, get-put}
use regulatory_compliance_he.Models.{Release}
use regulatory_compliance_he.Store.Feed.{index_from}
use regulatory_compliance_he.Feed.{is_known, added, Cache, cached, merge_into_cache}

any-append : (p : Release → Bool) (xs ys : List Release) → any p (xs ++ ys) ≡ (any p xs || any p ys)
unfolding any
any-append p [] ys = refl
any-append p (x ∷ xs) ys = ground (arith, any-append p xs ys)

-- If a cache knows all that is cached or added, it knows all that was fetched.
covered :
    (base existing releases : List Release)
    → ((r : Release) → is_known existing r ≡ true → is_known base r ≡ true)
    → ((r : Release) → is_known (added existing releases) r ≡ true → is_known base r ≡ true)
    → added base releases ≡ []
unfolding added keep any
covered base existing [] old new = refl
covered base existing (r ∷ releases) old new = elim (Bool-cases (is_known existing r)) [
  | inl e ↦ rw (old r e) (covered base existing releases old (λ s h. new s (rw e h)))
  | inr e ↦
      rw (new r (rw e (ground (arith, eq_refl r.release_id))))
        (covered base existing releases old (λ s h. new s (rw e (ground (arith, h)))))
]

merge_twice :
    (existing releases : List Release) → added (existing ++ added existing releases) releases ≡ []
merge_twice existing releases =
    covered (existing ++ added existing releases) existing releases
      (λ r h. rw any-append (rw h refl)) (λ r h. rw any-append (ground (arith, h)))

index_from-other :
    (d : Dict Release) (existing releases : List Release) (release_id : Text)
    → any (λ e. e.release_id == release_id) existing ≡ true
    → get (index_from d (added existing releases)) release_id ≡ get d release_id
unfolding index_from added keep
index_from-other d existing [] release_id h = refl
index_from-other d existing (r ∷ releases) release_id h = elim (Bool-cases (is_known existing r)) [
  | inl e ↦ rw e (index_from-other d existing releases release_id h)
  | inr e ↦ rw e (
      index_from-other (put d r.release_id r) existing releases release_id h
      ∙ ground (arith, e, h, get-put d r.release_id release_id r, eq_iff r.release_id release_id))
]

index_from-append :
    (d : Dict Release) (xs ys : List Release)
    → index_from d (xs ++ ys) ≡ index_from (index_from d xs) ys
unfolding index_from
index_from-append d [] ys = refl
index_from-append d (x ∷ xs) ys = index_from-append (put d x.release_id x) xs ys

-- The first of two answers that is given.
abbrev pub or_else : Option Release → Option Release → Option Release
or_else none y = y
or_else (some r) y = some r

index_from-found :
    (d : Dict Release) (xs : List Release) (release_id : Text) (r : Release)
    → get d release_id ≡ some r
    → (v : Release) × (get (index_from d xs) release_id ≡ some v)
unfolding index_from
index_from-found d [] release_id r h = (r, h)
index_from-found d (x ∷ xs) release_id r h = elim (Bool-cases (x.release_id == release_id)) [
  | inl e ↦
      index_from-found (put d x.release_id x) xs release_id x
        (get-put d x.release_id release_id x ∙ rw e refl)
  | inr e ↦
      index_from-found (put d x.release_id x) xs release_id r
        (get-put d x.release_id release_id x ∙ rw (e, h) refl)
]

-- A release of a list is found in its index, and another is not.
index_from-known :
    (d : Dict Release) (xs : List Release) (release_id : Text)
    → any (λ e. e.release_id == release_id) xs ≡ true
    → (v : Release) × (get (index_from d xs) release_id ≡ some v)
unfolding index_from any
index_from-known d [] release_id h = absurd (cc h)
index_from-known d (x ∷ xs) release_id h = elim (Bool-cases (x.release_id == release_id)) [
  | inl e ↦
      index_from-found (put d x.release_id x) xs release_id x
        (get-put d x.release_id release_id x ∙ rw e refl)
  | inr e ↦ index_from-known (put d x.release_id x) xs release_id (ground (arith, h, e))
]

index_from-unknown :
    (d : Dict Release) (xs : List Release) (release_id : Text)
    → any (λ e. e.release_id == release_id) xs ≡ false
    → get (index_from d xs) release_id ≡ get d release_id
unfolding index_from any
index_from-unknown d [] release_id h = refl
index_from-unknown d (x ∷ xs) release_id h =
    let other : (x.release_id == release_id) ≡ false = ground (arith, h) in
    index_from-unknown (put d x.release_id x) xs release_id (ground (arith, h))
    ∙ get-put d x.release_id release_id x
    ∙ rw other refl

-- A release that is not cached is found as the feed gives it.
index_from-added :
    (c d : Dict Release) (existing releases : List Release) (release_id : Text)
    → any (λ e. e.release_id == release_id) existing ≡ false
    → get c release_id ≡ get d release_id
    → get (index_from c (added existing releases)) release_id
      ≡ get (index_from d releases) release_id
unfolding index_from added keep
index_from-added c d existing [] release_id h same = same
index_from-added c d existing (r ∷ releases) release_id h same =
    elim (Bool-cases (is_known existing r)) [
      | inl e ↦
          let other : (r.release_id == release_id) ≡ false =
            ground (arith, e, h, eq_iff r.release_id release_id) in
          rw e (
            index_from-added c (put d r.release_id r) existing releases release_id h
              (same ∙ sym (get-put d r.release_id release_id r ∙ rw other refl)))
      | inr e ↦ rw e (
          index_from-added (put c r.release_id r) (put d r.release_id r) existing releases
            release_id h
            (get-put c r.release_id release_id r
              ∙ rw same refl
              ∙ sym (get-put d r.release_id release_id r)))
    ]

merged-found :
    (existing releases : List Release) (release_id : Text)
    → get (index_from [] (existing ++ added existing releases)) release_id
      ≡ or_else (get (index_from [] existing) release_id) (get (index_from [] releases) release_id)
unfolding get
merged-found existing releases release_id =
    ap (λ (d : Dict Release). get d release_id)
      (index_from-append [] existing (added existing releases))
    ∙ elim (Bool-cases (any (λ e. e.release_id == release_id) existing)) [
      | inl known ↦
          let (v, found) = index_from-known [] existing release_id known in
          index_from-other (index_from [] existing) existing releases release_id known
          ∙ rw found refl
      | inr fresh ↦
          let none_yet = index_from-unknown [] existing release_id fresh in
          index_from-added (index_from [] existing) [] existing releases release_id fresh none_yet
          ∙ rw none_yet refl
    ]

-- After a merge every release that was cached is found as it was, whatever the feed says now, and every
-- other one as the feed gives it, if it does. A second merge of the same releases adds none: it only
-- sets the time of the fetch.
pub merge_into_cache_lem :
    (file : Option Cache) (source now later : Text) (releases : List Release) (release_id : Text)
    → (get (index_from [] (merge_into_cache file source now releases).0.releases) release_id
        ≡ or_else
            (get (index_from [] (cached file)) release_id)
            (get (index_from [] releases) release_id))
      × ((merge_into_cache
            (some (merge_into_cache file source now releases).0)
            source
            later
            releases).0
          ≡ record (merge_into_cache file source now releases).0 { fetched = later })
      × ((merge_into_cache
            (some (merge_into_cache file source now releases).0)
            source
            later
            releases).1.0
          ≡ 0)
unfolding merge_into_cache
merge_into_cache_lem file source now later releases release_id =
    let again = merge_twice (cached file) releases in
    let same = append-nil (cached file ++ added (cached file) releases) in
    (
      merged-found (cached file) releases release_id,
      ap (λ (rs : List Release). record { source = source; fetched = later; releases = rs })
          (ap (λ (new : List Release). (cached file ++ added (cached file) releases) ++ new) again
            ∙ same),
      rw again refl,
    )
