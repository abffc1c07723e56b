-- ===== src/Prelude/Sorted.antt =====
-- Dictionaries in the order of their keys.
use mathlib.Core.Path.{◌≡◌, refl, sym, ap, ◌∙◌}
use mathlib.Core.Bool.{true}
use mathlib.Core.List.{[], ◌∷◌}
use native.Mathlib.Omega.{arith}
use regulatory_compliance_he.Prelude.Lists.{All, All-map, keep, sort_by}
use regulatory_compliance_he.Prelude.Strings.{Text, ◌==◌, eq_iff, text_le}
use regulatory_compliance_he.Prelude.Order.{text_lt_irrefl, text_le_total, text_le_trans}
use regulatory_compliance_he.Prelude.Map.{Dict, get}
use regulatory_compliance_he.Prelude.Sorting.{by_key}
use regulatory_compliance_he.Prelude.Latest.{keep-All-true, insert_by_first, keep-sort_by}

equal_le : (j i k : Text) → (j == k) ≡ true → (i == k) ≡ true → text_le j i ≡ true
equal_le j i k h e = ground (arith, h, e, eq_iff j k, eq_iff i k, text_lt_irrefl k)

module _ {ℓ} {V : Type ℓ} where
  -- A dictionary as `sorted(d.items())` gives it.
  abbrev pub in_order : Dict V → Dict V
  in_order d = sort_by (by_key (λ m. m.0)) d

  pub keep-in_order : (p : Text × V → _) (d : Dict V) → keep p (in_order d) ≡ in_order (keep p d)
  keep-in_order p d =
      keep-sort_by (by_key (λ m. m.0)) (λ a b. text_le_total a.0 b.0)
        (λ a b c. text_le_trans a.0 b.0 c.0) p d

  get-keep : (d : Dict V) (k : Text) → get (keep (λ m. m.0 == k) d) k ≡ get d k
  unfolding get keep
  get-keep [] k = refl
  get-keep ((j, v) ∷ d) k = ground (arith, get-keep d k)

  in_order_same : (d : Dict V) (k : Text) → All (λ m. (m.0 == k) ≡ true) d → in_order d ≡ d
  unfolding sort_by
  in_order_same [] k h = refl
  in_order_same ((j, v) ∷ d) k (h, hs) = rw (in_order_same d k hs) (
      insert_by_first (by_key (λ m. m.0)) (j, v) d
        (All-map (λ m. (m.0 == k) ≡ true) (λ m. by_key (λ (n : Text × V). n.0) (j, v) m ≡ true)
          (λ m e. equal_le j m.0 k h e) d hs))

  -- The order of the entries does not matter to a look-up.
  pub get-in_order : (d : Dict V) (k : Text) → get (in_order d) k ≡ get d k
  get-in_order d k =
      sym (get-keep (in_order d) k)
      ∙ ap (λ (e : Dict V). get e k) (keep-in_order (λ m. m.0 == k) d)
      ∙ ap (λ (e : Dict V). get e k)
          (in_order_same (keep (λ m. m.0 == k) d) k (keep-All-true (λ m. m.0 == k) d))
      ∙ get-keep d k
