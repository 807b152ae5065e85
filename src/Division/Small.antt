-- ===== src/Division/Small.antt =====
-- The division of lib/arithmetic.c by a divisor of 32 bits.
use native.Mathlib.Nat.{add-mul-div_left, div-add-mod, div-lt_iff_lt-mul, div-le_self, mod-lt}
use cau_assignments.Base.{
  ℕ, true, false, ◌+◌, ◌*◌, ◌/◌, ◌%◌, ◌^◌, ◌≤◌, ◌<◌, ◌≡◌, ap, ◌∙◌, Option, none, some, ◌==◌, arith,
}
use cau_assignments.Division.Ops.{divl, minus64, udiv64_small, udiv64, umod64}

pub divl_lem : (n d : ℕ) → 0 < d → n / d < 2 ^ 32 → divl n d ≡ some (n / d)
unfolding divl
divl_lem n d pos fits = ground arith

pub umod64-some : (n d q : ℕ) → udiv64 n d ≡ some q → umod64 n d ≡ some (minus64 n (d * q) % 2 ^ 32)
unfolding umod64
umod64-some n d q e =
    ap (λ r. elim r as (λ _. Option ℕ) [ none ↦ none | some x ↦ some (minus64 n (d * x) % 2 ^ 32) ])
      e

module _ (n d : ℕ) (small : n < 2 ^ 64) (pos : 0 < d) (fits : d < 2 ^ 32) where
  -- The quotient of the upper half, and what is left of it with the lower half.
  rest_div : n / d ≡ (2 ^ 32 * (n / 2 ^ 32 % d) + n % 2 ^ 32) / d + 2 ^ 32 * (n / 2 ^ 32 / d)
  rest_div =
      let whole : n ≡ 2 ^ 32 * (n / 2 ^ 32 % d) + n % 2 ^ 32 + d * (2 ^ 32 * (n / 2 ^ 32 / d)) =
        omega (arith, div-add-mod n (2 ^ 32), div-add-mod (n / 2 ^ 32) d) in
      ap (λ x. x / d) whole
      ∙ add-mul-div_left (2 ^ 32 * (n / 2 ^ 32 % d) + n % 2 ^ 32) (2 ^ 32 * (n / 2 ^ 32 / d)) pos

  rest_small : (2 ^ 32 * (n / 2 ^ 32 % d) + n % 2 ^ 32) / d < 2 ^ 32
  rest_small = let left = mod-lt (n / 2 ^ 32) pos in (div-lt_iff_lt-mul pos).1 (omega (arith, left))

  udiv64_small_lem : udiv64_small n d ≡ some (n / d)
  unfolding udiv64_small
  udiv64_small_lem =
      let same : d % 2 ^ 32 ≡ d = omega arith in
      let left = mod-lt (n / 2 ^ 32) pos in
      let fits64 : (2 ^ 32 * (n / 2 ^ 32 % d) + n % 2 ^ 32) % 2 ^ 64
          ≡ 2 ^ 32 * (n / 2 ^ 32 % d) + n % 2 ^ 32 =
        omega (arith, left) in
      let le : n / d ≤ n = div-le_self n d in
      let nonzero : (d == 0) ≡ false = ground arith in
      let sum = rest_div in
      rw (same, nonzero, fits64, divl_lem (2 ^ 32 * (n / 2 ^ 32 % d) + n % 2 ^ 32) d pos rest_small)
        (ap some (omega (arith, sum, le, ap (λ x. n / 2 ^ 32 / x) same)))

  pub udiv64-small : udiv64 n d ≡ some (n / d)
  unfolding udiv64
  udiv64-small = let upper : (d / 2 ^ 32 == 0) ≡ true = ground arith in rw upper udiv64_small_lem
