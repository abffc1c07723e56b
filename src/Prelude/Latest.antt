-- ===== src/Prelude/Latest.antt =====
-- What `keep` does to a sorted list, and the last element of a sorted list.
use mathlib.Core.Path.{◌≡◌, refl}
use mathlib.Core.Logic.{inl, inr}
use mathlib.Core.Bool.{Bool, true, false, ◌&&◌}
use mathlib.Core.Option.{Option, none, some}
use mathlib.Core.List.{List, [], ◌∷◌, Memᴰ}
use mathlib.Core.List.Memᴰ
use native.Mathlib.Omega.{arith}
use regulatory_compliance_he.Prelude.Tests.{Bool-cases, if◌then◌else◌}
use regulatory_compliance_he.Prelude.Lists.{All, All-map, keep, last?, insert_by, sort_by}
use regulatory_compliance_he.Prelude.Sorting.{IsSorted, sort_by-IsSorted}

module _ {ℓ} {A : Type ℓ} where
  pub keep-keep : (p q : A → Bool) (xs : List A) → keep p (keep q xs) ≡ keep (λ x. q x && p x) xs
  unfolding keep
  keep-keep p q [] = refl
  keep-keep p q (x ∷ xs) = ground (arith, keep-keep p q xs)

  pub keep-All-true : (p : A → Bool) (xs : List A) → All (λ x. p x ≡ true) (keep p xs)
  unfolding keep
  keep-All-true p [] = tt
  keep-All-true p (x ∷ xs) = elim (Bool-cases (p x)) [
    | inl e ↦ rw e (e, keep-All-true p xs)
    | inr e ↦ rw e (keep-All-true p xs)
  ]

  pub keep-All {κ} : (P : A → Type κ) (p : A → Bool) (xs : List A) → All P xs → All P (keep p xs)
  unfolding keep
  keep-All P p [] h = tt
  keep-All P p (x ∷ xs) (h, hs) = elim (Bool-cases (p x)) [
    | inl e ↦ rw e (h, keep-All P p xs hs)
    | inr e ↦ rw e (keep-All P p xs hs)
  ]

  pub Mem-keep : {a : A} (p : A → Bool) (xs : List A) → Memᴰ a (keep p xs) → Memᴰ a xs
  unfolding keep
  Mem-keep p [] m = m
  Mem-keep p (x ∷ xs) m = elim (Bool-cases (p x)) [
    | inl e ↦ elim (Memᴰ.cases_cons (rw e at m)) [
      | inl same ↦ Memᴰ.head same
      | inr later ↦ Memᴰ.tail (Mem-keep p xs later)
    ]
    | inr e ↦ Memᴰ.tail (Mem-keep p xs (rw e at m))
  ]

  pub All-Mem {κ} : (P : A → Type κ) {a : A} (xs : List A) → All P xs → Memᴰ a xs → P a
  All-Mem P [] h m = absurd (Memᴰ.not-nil m)
  All-Mem P (x ∷ xs) (h, hs) m = elim (Memᴰ.cases_cons m) [
    | inl same ↦ rw same h
    | inr later ↦ All-Mem P xs hs later
  ]

  module _ (le : A → A → Bool) where
    -- The last element of a sorted list is one of it, and none of it comes after.
    abbrev pub IsGreatest : List A → Option A → Type ℓ
    IsGreatest xs none = xs ≡ []
    IsGreatest xs (some d) = Memᴰ d xs × All (λ e. le e d ≡ true) xs

    pub last-IsGreatest :
        ((x : A) → le x x ≡ true) → (xs : List A) → IsSorted le xs → IsGreatest xs (last? xs)
    unfolding last?
    last-IsGreatest le_refl [] h = refl
    last-IsGreatest le_refl (x ∷ []) h = (Memᴰ.head refl, (le_refl x, tt))
    last-IsGreatest le_refl (x ∷ y ∷ xs) (h, hs) =
        grow (last? (y ∷ xs)) (last-IsGreatest le_refl (y ∷ xs) hs)
      where
        grow : (o : Option A) → IsGreatest (y ∷ xs) o → IsGreatest (x ∷ y ∷ xs) o
        grow none e = absurd (cc e)
        grow (some d) (m, k) = (Memᴰ.tail m, (All-Mem (λ z. le x z ≡ true) (y ∷ xs) h m, k))

    pub Mem-insert_by : {d : A} (a : A) (xs : List A) → Memᴰ d (insert_by le a xs) → Memᴰ d (a ∷ xs)
    unfolding insert_by
    Mem-insert_by a [] m = m
    Mem-insert_by a (x ∷ xs) m = elim (Bool-cases (le a x)) [
      | inl e ↦ rw e at m
      | inr e ↦ elim (Memᴰ.cases_cons (rw e at m)) [
        | inl same ↦ Memᴰ.tail (Memᴰ.head same)
        | inr later ↦ elim (Memᴰ.cases_cons (Mem-insert_by a xs later)) [
          | inl same ↦ Memᴰ.head same
          | inr rest ↦ Memᴰ.tail (Memᴰ.tail rest)
        ]
      ]
    ]

    pub Mem-sort_by : {d : A} (xs : List A) → Memᴰ d (sort_by le xs) → Memᴰ d xs
    unfolding sort_by
    Mem-sort_by [] m = m
    Mem-sort_by (x ∷ xs) m = elim (Memᴰ.cases_cons (Mem-insert_by x (sort_by le xs) m)) [
      | inl same ↦ Memᴰ.head same
      | inr later ↦ Memᴰ.tail (Mem-sort_by xs later)
    ]

    All-insert_by_inv {κ} :
        (P : A → Type κ) (a : A) (xs : List A) → All P (insert_by le a xs) → All P (a ∷ xs)
    unfolding insert_by
    All-insert_by_inv P a [] h = h
    All-insert_by_inv P a (x ∷ xs) h = elim (Bool-cases (le a x)) [
      | inl e ↦ rw e at h
      | inr e ↦
          let (k, ks) : P x × All P (insert_by le a xs) = rw e at h in
          let (l, ls) = All-insert_by_inv P a xs ks in (l, (k, ls))
    ]

    pub All-sort_by_inv {κ} : (P : A → Type κ) (xs : List A) → All P (sort_by le xs) → All P xs
    unfolding sort_by
    All-sort_by_inv P [] h = tt
    All-sort_by_inv P (x ∷ xs) h =
        let (k, ks) = All-insert_by_inv P x (sort_by le xs) h in (k, All-sort_by_inv P xs ks)

    sort_by-nil : (xs : List A) → sort_by le xs ≡ [] → xs ≡ []
    unfolding sort_by
    sort_by-nil [] e = refl
    sort_by-nil (x ∷ xs) e = absurd (insert_by-nil (sort_by le xs) e)
      where
        insert_by-nil : (ys : List A) → insert_by le x ys ≡ [] → ⊥
        insert_by-nil [] h = cc h
        insert_by-nil (y ∷ ys) h = elim (Bool-cases (le x y)) [
          | inl f ↦ absurd (cc (f, h))
          | inr f ↦ absurd (cc (f, h))
        ]

    pub IsGreatest-sort_by :
        (xs : List A) (o : Option A) → IsGreatest (sort_by le xs) o → IsGreatest xs o
    IsGreatest-sort_by xs none e = sort_by-nil xs e
    IsGreatest-sort_by xs (some d) (m, h) = (Mem-sort_by xs m, All-sort_by_inv _ xs h)

    pub insert_by_first :
        (a : A) (xs : List A) → All (λ y. le a y ≡ true) xs → insert_by le a xs ≡ a ∷ xs
    unfolding insert_by
    insert_by_first a [] h = refl
    insert_by_first a (x ∷ xs) (h, hs) = rw h

    module _ (le_total : (a b : A) → le a b ≡ false → le b a ≡ true)
        (le_trans : (a b c : A) → le a b ≡ true → le b c ≡ true → le a c ≡ true) where
      keep-insert_by :
          (p : A → Bool) (a : A) (xs : List A)
          → IsSorted le xs
          → keep p (insert_by le a xs) ≡ (if p a then insert_by le a (keep p xs) else keep p xs)
      unfolding keep insert_by
      keep-insert_by p a [] h = refl
      keep-insert_by p a (x ∷ xs) (h, hs) = elim (Bool-cases (le a x)) [
        | inl e ↦
            let smallest = All-map _ _ (λ y. le_trans a x y e) xs h in
            let first = insert_by_first a (keep p xs) (keep-All _ p xs smallest) in
            ground (arith, first)
        | inr e ↦ ground (arith, keep-insert_by p a xs hs)
      ]

      -- The stable sort and a filter can be done in either order.
      pub keep-sort_by :
          (p : A → Bool) (xs : List A) → keep p (sort_by le xs) ≡ sort_by le (keep p xs)
      unfolding keep sort_by
      keep-sort_by p [] = refl
      keep-sort_by p (x ∷ xs) =
          let inserted =
            keep-insert_by p x (sort_by le xs) (sort_by-IsSorted le le_total le_trans xs) in
          ground (arith, inserted, keep-sort_by p xs)

      -- The last kept element of a sorted list is the greatest of the kept elements.
      pub last-keep-sort_by :
          ((x : A) → le x x ≡ true)
          → (p : A → Bool) (xs : List A) → IsGreatest (keep p xs) (last? (keep p (sort_by le xs)))
      last-keep-sort_by le_refl p xs = rw (keep-sort_by p xs) (
          IsGreatest-sort_by (keep p xs) _ (
            last-IsGreatest le_refl (sort_by le (keep p xs))
              (sort_by-IsSorted le le_total le_trans (keep p xs))))
