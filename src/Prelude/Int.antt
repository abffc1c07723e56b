-- ===== src/Prelude/Int.antt =====
-- Signed integers over the native numbers, for differences of dates and arguments that a caller
-- may send below zero.
use Prim.Native.Nat.{ℕ, suc, ◌-◌, ◌+◌}
use mathlib.Core.Bool.{Bool}
use native.Mathlib.Omega.{arith}
use mathlib.Core.Path.{◌≡◌}
use regulatory_compliance_he.Prelude.Tests.{leb, if◌then◌else◌}

-- `negsuc n` is -(n + 1).
pub data ℤ : Type 0 where
  pos : ℕ → ℤ
  negsuc : ℕ → ℤ

abbrev pub pos_part : ℤ → ℕ
pos_part (pos n) = n
pos_part (negsuc n) = 0

abbrev pub neg_part : ℤ → ℕ
neg_part (pos n) = 0
neg_part (negsuc n) = suc n

-- a - b, as an integer.
abbrev pub sub_ℕ : ℕ → ℕ → ℤ
sub_ℕ a b = if leb b a then pos (a - b) else negsuc (b - a - 1)

abbrev pub leb_ℤ : ℤ → ℤ → Bool
leb_ℤ a b = leb (pos_part a + neg_part b) (pos_part b + neg_part a)

-- A difference is at most `n` exactly when the first number is at most the second and `n`.
pub sub_ℕ-leb : (a b n : ℕ) → leb_ℤ (sub_ℕ a b) (pos n) ≡ leb a (b + n)
sub_ℕ-leb a b n = ground arith
