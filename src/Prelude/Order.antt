-- ===== src/Prelude/Order.antt =====
-- The order of texts is strict and linear.
use mathlib.Core.Path.{◌≡◌, refl}
use mathlib.Core.Logic.{◌⊎◌}
use mathlib.Core.Bool.{true, false}
use mathlib.Core.List.{[], ◌∷◌}
use native.Mathlib.Omega.{arith}
use regulatory_compliance_he.Prelude.Strings.{Text, text_lt, text_le}

pub text_lt_irrefl : (s : Text) → text_lt s s ≡ false
unfolding text_lt
text_lt_irrefl [] = refl
text_lt_irrefl (c ∷ s) = ground (arith, text_lt_irrefl s)

pub text_lt_trans : (s t u : Text) → text_lt s t ≡ true → text_lt t u ≡ true → text_lt s u ≡ true
unfolding text_lt
text_lt_trans [] [] u h k = cc
text_lt_trans [] (d ∷ t) [] h k = cc
text_lt_trans [] (d ∷ t) (e ∷ u) h k = refl
text_lt_trans (c ∷ s) [] u h k = cc
text_lt_trans (c ∷ s) (d ∷ t) [] h k = cc
text_lt_trans (c ∷ s) (d ∷ t) (e ∷ u) h k = ground (arith, text_lt_trans s t u)

pub text_lt_total : (s t : Text) → (text_lt s t ≡ true) ⊎ (text_lt t s ≡ true) ⊎ (s ≡ t)
unfolding text_lt
text_lt_total [] [] = ground arith
text_lt_total [] (d ∷ t) = ground arith
text_lt_total (c ∷ s) [] = ground arith
text_lt_total (c ∷ s) (d ∷ t) = ground (arith, text_lt_total s t)

pub text_le_trans : (s t u : Text) → text_le s t ≡ true → text_le t u ≡ true → text_le s u ≡ true
text_le_trans s t u h k =
    ground (arith, text_lt_total s t, text_lt_total t u, text_lt_trans u s t, text_lt_trans t u s)

pub text_le_antisymm : (s t : Text) → text_le s t ≡ true → text_le t s ≡ true → s ≡ t
text_le_antisymm s t h k = ground (arith, text_lt_total s t)

pub text_le_total : (s t : Text) → text_le s t ≡ false → text_le t s ≡ true
text_le_total s t h = ground (arith, text_lt_total s t, text_lt_irrefl s, text_lt_trans s t s)
