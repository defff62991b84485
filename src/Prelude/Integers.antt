-- ===== src/Prelude/Integers.antt =====
-- Signed integers over the native numbers, with the comparison of signed machine words.
use couchbase_rs.Prelude.Tests.{ltb}
use Prim.Native.Nat.{ℕ, suc, ◌+◌, ◌<◌}
use mathlib.Core.Path.{◌≡◌, ap}
use mathlib.Core.Bool.{Bool}
use native.Mathlib.Omega.{arith}

-- `negsuc n` is -(n + 1).
pub data ℤ : Type 0 where
  pos negsuc : ℕ → ℤ

abbrev pub pos_part : ℤ → ℕ
pos_part (pos n) = n
pos_part (negsuc n) = 0

abbrev pub neg_part : ℤ → ℕ
neg_part (pos n) = 0
neg_part (negsuc n) = suc n

infix 50 ◌<ℤ◌
abbrev pub ◌<ℤ◌ : ℤ → ℤ → Type 0
a <ℤ b = pos_part a + neg_part b < pos_part b + neg_part a

-- `a < b` and `i64::cmp`
abbrev pub ltb_ℤ : ℤ → ℤ → Bool
ltb_ℤ a b = ltb (pos_part a + neg_part b) (pos_part b + neg_part a)

pub ℤ_injective : (a b : ℤ) → pos_part a + neg_part b ≡ pos_part b + neg_part a → a ≡ b
ℤ_injective (pos a) (pos b) h = ap pos (omega (arith, h))
ℤ_injective (pos a) (negsuc b) h = absurd (omega (arith, h))
ℤ_injective (negsuc a) (pos b) h = absurd (omega (arith, h))
ℤ_injective (negsuc a) (negsuc b) h = ap negsuc (omega (arith, h))
