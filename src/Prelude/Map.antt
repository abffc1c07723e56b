-- ===== src/Prelude/Map.antt =====
-- Python's `dict` with text keys: an association list in the order of first insertion.
use mathlib.Core.Path.{◌≡◌, refl, ap}
use mathlib.Core.Option.{Option, none, some}
use mathlib.Core.List.{List, [], ◌∷◌, ◌++◌}
use mathlib.Core.Bool.{false}
use native.Mathlib.Omega.{arith}
use regulatory_compliance_he.Prelude.Tests.{if◌then◌else◌}
use regulatory_compliance_he.Prelude.Lists.{All}
use regulatory_compliance_he.Prelude.Strings.{Text, ◌==◌, eq_iff}

abbrev pub Dict {ℓ} : Type ℓ → Type ℓ
Dict V = List (Text × V)

module _ {ℓ} {V : Type ℓ} where
  -- `d.get(k)`
  unfoldable pub get : Dict V → Text → Option V
  get [] k = none
  get ((j, v) ∷ d) k = if j == k then some v else get d k

  -- `d[k] = v`: an old key keeps its place
  unfoldable pub put : Dict V → Text → V → Dict V
  put [] k v = (k, v) ∷ []
  put ((j, w) ∷ d) k v = let rest = put d k v in if j == k then (j, v) ∷ d else (j, w) ∷ rest

  -- `list(d.values())`
  unfoldable pub values : Dict V → List V
  values [] = []
  values ((j, v) ∷ d) = v ∷ values d

  pub get-put :
      (d : Dict V) (k j : Text) (v : V) → get (put d k v) j ≡ (if k == j then some v else get d j)
  unfolding get put
  get-put [] k j v = refl
  get-put ((i, w) ∷ d) k j v = ground (arith, get-put d k j v, eq_iff i k, eq_iff i j, eq_iff k j)

  pub get-put_self : (d : Dict V) (k : Text) (v : V) → get (put d k v) k ≡ some v
  get-put_self d k v = ground (arith, get-put d k k v, eq_iff k k)

  -- A new key goes to the end.
  pub put_new :
      (d : Dict V) (k : Text) (v : V)
      → All (λ m. (m.0 == k) ≡ false) d
      → put d k v ≡ d ++ (k, v) ∷ []
  unfolding put
  put_new [] k v h = refl
  put_new ((j, w) ∷ d) k v (h, hs) = rw h (ap (λ (l : Dict V). (j, w) ∷ l) (put_new d k v hs))
