-- ===== src/Base/Words.antt =====
-- Machine integers as bit patterns: a `w`-bit integer is a number below `2 ^ w`.
use cau_assignments.Base.Tests.{leb, ltb}
use Prim.Native.Nat.{ℕ, ◌+◌, ◌-◌, ◌%◌, ◌^◌}
use mathlib.Core.Bool.{Bool}

-- The order of two's complement, by moving the negative patterns below the others.
abbrev pub biased64 : ℕ → ℕ
biased64 a = (a + 2 ^ 63) % 2 ^ 64

abbrev pub biased32 : ℕ → ℕ
biased32 a = (a + 2 ^ 31) % 2 ^ 32

-- `a <= b` and `a > b` on `int64_t`
abbrev pub le_int64 : ℕ → ℕ → Bool
le_int64 a b = leb (biased64 a) (biased64 b)

abbrev pub gt_int64 : ℕ → ℕ → Bool
gt_int64 a b = ltb (biased64 b) (biased64 a)

-- `a > b` on `int`
abbrev pub gt_int : ℕ → ℕ → Bool
gt_int a b = ltb (biased32 b) (biased32 a)

abbrev pub int64_max : ℕ
int64_max = 2 ^ 63 - 1
