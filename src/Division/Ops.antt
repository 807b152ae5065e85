-- ===== src/Division/Ops.antt =====
-- lib/arithmetic.c. Integers are patterns of 64 or 32 bits; a trap of the processor is `none`.
use cau_assignments.Base.{
  ℕ, ◌+◌, ◌-◌, ◌*◌, ◌/◌, ◌%◌, ◌^◌, Bool, true, false, not, ◌||◌, Option, none, some, ◌==◌, leb, ltb,
  if◌then◌else◌,
}

-- The instruction traps if the quotient does not fit in 32 bits.
unfoldable pub divl : ℕ → ℕ → Option ℕ
divl n d = if (d == 0) || leb (2 ^ 32) (n / d) then none else some (n / d)

-- `x <<= k` on 32 bits
abbrev pub shifted_left : ℕ → ℕ → ℕ
shifted_left x k = x * 2 ^ k % 2 ^ 32

unfoldable pub nlz : ℕ → ℕ
nlz x =
    let a = leb x 0xFFFF in
    let n1 = (if a then 16 else 0) in
    let x1 = (if a then shifted_left x 16 else x) in
    let b = leb x1 0xFFFFFF in
    let n2 = (if b then n1 + 8 else n1) in
    let x2 = (if b then shifted_left x1 8 else x1) in
    let c = leb x2 0xFFFFFFF in
    let n3 = (if c then n2 + 4 else n2) in
    let x3 = (if c then shifted_left x2 4 else x2) in
    let d = leb x3 0x3FFFFFFF in
    let n4 = (if d then n3 + 2 else n3) in
    let x4 = (if d then shifted_left x3 2 else x3) in if leb x4 0x7FFFFFFF then n4 + 1 else n4

-- `a - b` on 64 bits
abbrev pub minus64 : ℕ → ℕ → ℕ
minus64 a b = (a + (2 ^ 64 - b % 2 ^ 64)) % 2 ^ 64

-- The divisor fits in 32 bits.
unfoldable pub udiv64_small : ℕ → ℕ → Option ℕ
udiv64_small n d =
    let n1 = n / 2 ^ 32 in
    let n0 = n % 2 ^ 32 in
    let d0 = d % 2 ^ 32 in
    if d0 == 0 then none else elim (divl ((2 ^ 32 * (n1 % d0) + n0) % 2 ^ 64) d0) [
      | none ↦ none
      | some q ↦ some ((q + 2 ^ 32 * (n1 / d0)) % 2 ^ 64)
    ]

-- The divisor does not.
unfoldable pub udiv64_large : ℕ → ℕ → Option ℕ
udiv64_large n d =
    if ltb n d
    then some 0
    else let s = nlz (d / 2 ^ 32) in
      elim (divl (n / 2) (d * 2 ^ s % 2 ^ 64 / 2 ^ 32)) [
        | none ↦ none
        | some q ↦
            let x = q / 2 ^ (31 - s) in
            some (if ltb (minus64 n (minus64 x 1 * d)) d then minus64 x 1 else x)
      ]

unfoldable pub udiv64 : ℕ → ℕ → Option ℕ
udiv64 n d = if d / 2 ^ 32 == 0 then udiv64_small n d else udiv64_large n d

-- The result has 32 bits.
unfoldable pub umod64 : ℕ → ℕ → Option ℕ
umod64 n d = elim (udiv64 n d) [ none ↦ none | some q ↦ some (minus64 n (d * q) % 2 ^ 32) ]

-- `n < 0` on 64 bits
abbrev pub negative64 : ℕ → Bool
negative64 n = leb (2 ^ 63) n

abbrev pub abs64 : ℕ → ℕ
abs64 n = if negative64 n then minus64 0 n else n

abbrev pub same_sign : Bool → Bool → Bool
same_sign true b = b
same_sign false b = not b

unfoldable pub sdiv64 : ℕ → ℕ → Option ℕ
sdiv64 n d = elim (udiv64 (abs64 n) (abs64 d)) [
  | none ↦ none
  | some q ↦ some (if same_sign (negative64 n) (negative64 d) then q else minus64 0 q)
]

-- The result has 32 bits.
unfoldable pub smod64 : ℕ → ℕ → Option ℕ
smod64 n d = elim (sdiv64 n d) [ none ↦ none | some q ↦ some (minus64 n (d * q) % 2 ^ 32) ]

abbrev pub divdi3 : ℕ → ℕ → Option ℕ
divdi3 = sdiv64

-- The value of 32 bits is extended by its sign.
abbrev pub moddi3 : ℕ → ℕ → Option ℕ
moddi3 n d = elim (smod64 n d) [
  | none ↦ none
  | some r ↦ some (if leb (2 ^ 31) r then r + (2 ^ 64 - 2 ^ 32) else r)
]

abbrev pub udivdi3 : ℕ → ℕ → Option ℕ
udivdi3 = udiv64

abbrev pub umoddi3 : ℕ → ℕ → Option ℕ
umoddi3 = umod64
