-- ===== src/Tests/Division.antt =====
-- Tests of the division, with divisors above and below 2 ^ 32.
use cau_assignments.Base.{ℕ, ◌+◌, ◌/◌, ◌%◌, ◌^◌, ◌≤◌, ◌<◌, ◌≡◌, ◌⊎◌, refl, none, some, arith}
use cau_assignments.Division.Ops.{udiv64_large, udiv64, umod64}
use cau_assignments.Division.Quotient.{udiv64_lem, umod64_lem}

abbrev dividend : ℕ
dividend = 2 ^ 63 + 5

abbrev divisor : ℕ
divisor = 2 ^ 33 + 7

udiv64_lem_example :
    ((divisor ≡ 0) × (udiv64 dividend divisor ≡ none))
    ⊎ ((0 < divisor) × (udiv64 dividend divisor ≡ some (dividend / divisor)))
udiv64_lem_example = udiv64_lem dividend divisor (omega arith) (omega arith)

-- The remainder of 2 ^ 32 by 2 ^ 33 is 2 ^ 32; the routine returns 0.
remainder_cut : umod64 (2 ^ 32) (2 ^ 33) ≡ some 0
unfolding umod64 udiv64 udiv64_large
remainder_cut = refl

umod64_lem_example :
    (r : ℕ) × (umod64 (2 ^ 32) (2 ^ 33) ≡ some r)
    × (r ≡ 2 ^ 32 % 2 ^ 33 % 2 ^ 32)
    × (((2 ^ 32 % 2 ^ 33 < 2 ^ 32) × (r ≡ 2 ^ 32 % 2 ^ 33))
        ⊎ ((2 ^ 32 ≤ 2 ^ 32 % 2 ^ 33) × (r < 2 ^ 32 % 2 ^ 33)))
umod64_lem_example = umod64_lem (2 ^ 32) (2 ^ 33) (omega arith) (omega arith) (omega arith)
