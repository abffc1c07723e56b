-- ===== src/Prelude/Sorting.antt =====
-- What the stable sort returns: the same elements, in order.
use mathlib.Core.Path.{◌≡◌, refl, ap}
use mathlib.Core.Logic.{inl, inr}
use mathlib.Core.Bool.{Bool, true, false}
use mathlib.Core.List.{List, [], ◌∷◌, ◌++◌, Perm}
use mathlib.Core.List.Perm
use regulatory_compliance_he.Prelude.Strings.{Text, text_le}
use regulatory_compliance_he.Prelude.Order.{text_le_total, text_le_trans}
use regulatory_compliance_he.Prelude.Tests.{Bool-cases}
use regulatory_compliance_he.Prelude.Lists.{All, All-map, insert_by, sort_by}

module _ {ℓ} {A : Type ℓ} (le : A → A → Bool) where
  -- Each element may stand before all that follow it.
  abbrev pub IsSorted : List A → Type ℓ
  IsSorted [] = Unit
  IsSorted (x ∷ xs) = All (λ y. le x y ≡ true) xs × IsSorted xs

  insert_by-Perm : (a : A) (xs : List A) → Perm (insert_by le a xs) (a ∷ xs)
  unfolding insert_by
  insert_by-Perm a [] = Perm.refl (a ∷ [])
  insert_by-Perm a (x ∷ xs) = elim (Bool-cases (le a x)) [
    | inl e ↦ rw e (Perm.refl _)
    | inr e ↦ rw e (Perm.trans (Perm.cons x (insert_by-Perm a xs)) (Perm.swap a x xs))
  ]

  pub sort_by-Perm : (xs : List A) → Perm (sort_by le xs) xs
  unfolding sort_by
  sort_by-Perm [] = Perm.refl []
  sort_by-Perm (x ∷ xs) =
      Perm.trans (insert_by-Perm x (sort_by le xs)) (Perm.cons x (sort_by-Perm xs))

  pub insert_by-All {κ} :
      (P : A → Type κ) (a : A) (xs : List A) → P a → All P xs → All P (insert_by le a xs)
  unfolding insert_by
  insert_by-All P a [] p h = (p, tt)
  insert_by-All P a (x ∷ xs) p h = elim (Bool-cases (le a x)) [
    | inl e ↦ rw e (p, h)
    | inr e ↦ rw e (h.0, insert_by-All P a xs p h.1)
  ]

  pub sort_by-All {κ} : (P : A → Type κ) (xs : List A) → All P xs → All P (sort_by le xs)
  unfolding sort_by
  sort_by-All P [] h = tt
  sort_by-All P (x ∷ xs) h = insert_by-All P x (sort_by le xs) h.0 (sort_by-All P xs h.1)

  insert_by-append_last :
      (a z : A) (xs : List A)
      → le a z ≡ true
      → insert_by le a (xs ++ z ∷ []) ≡ insert_by le a xs ++ z ∷ []
  unfolding insert_by
  insert_by-append_last a z [] h = rw h
  insert_by-append_last a z (x ∷ xs) h = elim (Bool-cases (le a x)) [
    | inl e ↦ rw e
    | inr e ↦ rw e (ap (λ (l : List A). x ∷ l) (insert_by-append_last a z xs h))
  ]

  -- An element that may stand after all others goes to the end.
  pub sort_by-append_last :
      (z : A) (xs : List A)
      → All (λ x. le x z ≡ true) xs
      → sort_by le (xs ++ z ∷ []) ≡ sort_by le xs ++ z ∷ []
  unfolding sort_by insert_by
  sort_by-append_last z [] h = refl
  sort_by-append_last z (x ∷ xs) (h, hs) =
      rw (sort_by-append_last z xs hs) (insert_by-append_last x z (sort_by le xs) h)

  module _ (le_total : (a b : A) → le a b ≡ false → le b a ≡ true)
      (le_trans : (a b c : A) → le a b ≡ true → le b c ≡ true → le a c ≡ true) where
    insert_by-IsSorted : (a : A) (xs : List A) → IsSorted xs → IsSorted (insert_by le a xs)
    unfolding insert_by
    insert_by-IsSorted a [] h = (tt, tt)
    insert_by-IsSorted a (x ∷ xs) h = elim (Bool-cases (le a x)) [
      | inl e ↦ rw e ((e, All-map _ _ (λ y. le_trans a x y e) xs h.0), h)
      | inr e ↦ rw e (
        insert_by-All (λ y. le x y ≡ true) a xs (le_total a x e) h.0,
        insert_by-IsSorted a xs h.1,
      )
    ]

    pub sort_by-IsSorted : (xs : List A) → IsSorted (sort_by le xs)
    unfolding sort_by
    sort_by-IsSorted [] = tt
    sort_by-IsSorted (x ∷ xs) = insert_by-IsSorted x (sort_by le xs) (sort_by-IsSorted xs)

-- `sorted(xs, key=...)` for a text key
module _ {ℓ} {A : Type ℓ} (key : A → Text) where
  abbrev pub by_key : A → A → Bool
  by_key a b = text_le (key a) (key b)

  pub sort_by_key-IsSorted : (xs : List A) → IsSorted by_key (sort_by by_key xs)
  sort_by_key-IsSorted =
      sort_by-IsSorted by_key (λ a b. text_le_total (key a) (key b))
        (λ a b c. text_le_trans (key a) (key b) (key c))
