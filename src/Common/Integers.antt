-- ===== src/Common/Integers.antt =====
-- Integers over the native numbers, for times: the tests of order and the sum with a duration.
use Prim.Native.Nat.{ℕ, ◌+◌, ◌-◌}
use mathlib.Core.Path.{◌≡◌}
use mathlib.Core.Bool.{Bool, true, false, not}
use native.Mathlib.Omega.{arith}
use kepos.Common.Tests.{leb, if◌then◌else◌}

-- `negsuc n` is -1 - n.
pub data ℤ : Type 0 where
  pos negsuc : ℕ → ℤ

abbrev pub lebℤ : ℤ → ℤ → Bool
lebℤ (pos m) (pos n) = leb m n
lebℤ (pos m) (negsuc n) = false
lebℤ (negsuc m) (pos n) = true
lebℤ (negsuc m) (negsuc n) = leb n m

abbrev pub ltbℤ : ℤ → ℤ → Bool
ltbℤ m n = not (lebℤ n m)

abbrev pub after : ℤ → ℕ → ℤ
after (pos m) d = pos (m + d)
after (negsuc m) d = if leb d m then negsuc (m - d) else pos (d - m - 1)

pub lebℤ_refl : (m : ℤ) → lebℤ m m ≡ true
lebℤ_refl (pos m) = ground arith
lebℤ_refl (negsuc m) = ground arith
