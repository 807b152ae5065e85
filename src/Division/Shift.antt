-- ===== src/Division/Shift.antt =====
-- The shifted divisor of lib/arithmetic.c, and the division by a divisor of more than 32 bits.
use native.Mathlib.Nat.{
  div-add-mod, div-mul-le_self, div-lt_iff_lt-mul, le-div_iff_mul-le, div-div-eq-div-mul,
  mul-le-mul_right, mul-le-mul, le_of_mul-le-mul_right, lt_of_mul-lt-mul_left, pow-le-pow_right,
  two-pow-succ, one-le-pow,
}
use cau_assignments.Base.{
  ℕ, zero, suc, false, ◌+◌, ◌-◌, ◌*◌, ◌/◌, ◌%◌, ◌^◌, ◌≤◌, ◌<◌, ◌≡◌, ◌⊎◌, sym, ap, ◌∙◌, some, ltb,
  arith,
}
use cau_assignments.Division.Ops.{nlz, udiv64_large}
use cau_assignments.Division.Small.{divl_lem}
use cau_assignments.Division.Large.{nlz_lem, chosen, few, estimate_low, estimate_high}

pow-add : (a b : ℕ) → 2 ^ (a + b) ≡ 2 ^ a * 2 ^ b
pow-add zero b =
    let none_more : zero + b ≡ b = omega arith in ap (λ x. 2 ^ x) none_more ∙ omega arith
pow-add (suc a) b =
    let sum : suc a + b ≡ suc (a + b) = omega arith in
    ap (λ x. 2 ^ x) sum
    ∙ omega (arith, two-pow-succ (a + b), ap (λ x. x * 2 ^ b) (two-pow-succ a), pow-add a b)

module _ (s : ℕ) (le : s ≤ 31) where
  powers : 2 ^ s * 2 ^ (32 - s) ≡ 2 ^ 32
  powers =
      let sum : s + (32 - s) ≡ 32 = omega arith in sym (pow-add s (32 - s)) ∙ ap (λ x. 2 ^ x) sum

  power_next : 2 ^ (32 - s) ≡ 2 * 2 ^ (31 - s)
  power_next =
      let sum : 32 - s ≡ suc (31 - s) = omega arith in
      ap (λ x. 2 ^ x) sum ∙ omega (arith, two-pow-succ (31 - s))

-- A divisor, its upper half, and how far it is shifted.
module _ (d p r : ℕ) (fits : d < 2 ^ 64) (split : p * r ≡ 2 ^ 32) (pos : 0 < p)
    (high : 2 ^ 31 ≤ d / 2 ^ 32 * p) (low : d / 2 ^ 32 * p < 2 ^ 32) where
  shift_fits : d * p < 2 ^ 64
  shift_fits =
      let upper : d / 2 ^ 32 < r = lt_of_mul-lt-mul_left p (omega (arith, split, low)) in
      let le : d + 1 ≤ r * 2 ^ 32 = omega (arith, upper) in
      let part = mul-le-mul_right p le in omega (arith, part, split, pos)

  abbrev v : ℕ
  v = d * p / 2 ^ 32

  v_high : 2 ^ 31 ≤ v
  v_high =
      let part = mul-le-mul_right p (div-mul-le_self d (2 ^ 32)) in
      (le-div_iff_mul-le (omega arith)).1 (omega (arith, part, high))

  v_below : v * r ≤ d
  v_below =
      let part = div-mul-le_self (d * p) (2 ^ 32) in
      let whole : v * (p * r) ≡ v * 2 ^ 32 = ap (λ x. v * x) split in
      le_of_mul-le-mul_right {k = p} (omega (arith, part, whole)) pos

  v_above : d < v * r + r
  v_above =
      let whole : v * (p * r) ≡ v * 2 ^ 32 = ap (λ x. v * x) split in
      let part = div-add-mod (d * p) (2 ^ 32) in
      let left : d * p % 2 ^ 32 < 2 ^ 32 = omega arith in
      lt_of_mul-lt-mul_left p (omega (arith, part, whole, left, split))

near_of : (n q x : ℕ) → 0 < x → q * x ≤ n → n < (q + 2) * x → (n / x ≡ q) ⊎ (n / x ≡ q + 1)
near_of n q x pos low high =
    let at_least : q ≤ n / x = (le-div_iff_mul-le pos).1 low in
    let below : n / x < q + 2 = (div-lt_iff_lt-mul pos).1 high in ground arith

-- The quotient of a number that is not below its divisor.
module _ (n d : ℕ) (small : n < 2 ^ 64) (fits : d < 2 ^ 64) (big : 2 ^ 32 ≤ d) (le : d ≤ n) where
  abbrev s : ℕ
  s = nlz (d / 2 ^ 32)

  upper_lem : (s ≤ 31) × (2 ^ 31 ≤ d / 2 ^ 32 * 2 ^ s) × (d / 2 ^ 32 * 2 ^ s < 2 ^ 32)
  upper_lem = nlz_lem (d / 2 ^ 32) (omega arith) (omega arith)

  pos_power : 0 < 2 ^ s
  pos_power = one-le-pow s 2 (omega arith)

  half_power : 2 ^ s ≤ 2 ^ 31
  half_power = pow-le-pow_right (omega arith) upper_lem.0

  abbrev w : ℕ
  w = d * 2 ^ s / 2 ^ 32

  below : w * 2 ^ (32 - s) ≤ d
  below =
      v_below d (2 ^ s) (2 ^ (32 - s)) fits (powers s upper_lem.0) pos_power upper_lem.1 upper_lem.2

  above : d < w * 2 ^ (32 - s) + 2 ^ (32 - s)
  above =
      v_above d (2 ^ s) (2 ^ (32 - s)) fits (powers s upper_lem.0) pos_power upper_lem.1 upper_lem.2

  high : 2 ^ 31 ≤ w
  high =
      v_high d (2 ^ s) (2 ^ (32 - s)) fits (powers s upper_lem.0) pos_power upper_lem.1 upper_lem.2

  pos_d : 0 < d
  pos_d = omega arith

  part_pos : 2 ^ 31 * 1 ≤ w * 2 ^ (32 - s)
  part_pos = mul-le-mul high (one-le-pow (32 - s) 2 (omega arith))

  few_d : n / d < 2 ^ 33
  few_d =
      let f =
        few n d (2 ^ s) (2 ^ (32 - s)) w small pos_d (powers s upper_lem.0) half_power high below
          above in
      let h = half_power in omega (arith, f, h)

  one_d : 1 ≤ n / d
  one_d = (le-div_iff_mul-le pos_d).1 (omega arith)

  no_trap : n / 2 / w < 2 ^ 32
  no_trap = let h = high in (div-lt_iff_lt-mul (omega (arith, h))).1 (omega (arith, h))

  -- The estimate of the quotient.
  estimate : n / 2 / w / 2 ^ (31 - s) ≡ n / (w * 2 ^ (32 - s))
  estimate =
      let same : 2 * w * 2 ^ (31 - s) ≡ w * 2 ^ (32 - s) =
        omega (arith, ap (λ x. w * x) (power_next s upper_lem.0)) in
      ap (λ x. x / 2 ^ (31 - s)) (div-div-eq-div-mul n 2 w)
      ∙ div-div-eq-div-mul n (2 * w) (2 ^ (31 - s))
      ∙ ap (λ x. n / x) same

  near : (n / (w * 2 ^ (32 - s)) ≡ n / d) ⊎ (n / (w * 2 ^ (32 - s)) ≡ n / d + 1)
  near =
      near_of n (n / d) (w * 2 ^ (32 - s)) (omega (arith, below, above, high, part_pos))
        (estimate_low n d (2 ^ s) (2 ^ (32 - s)) w small pos_d (powers s upper_lem.0) half_power
          high below above)
        (estimate_high n d (2 ^ s) (2 ^ (32 - s)) w small pos_d (powers s upper_lem.0) half_power
          high below above)

  pub udiv64_large_lem : udiv64_large n d ≡ some (n / d)
  unfolding udiv64_large
  udiv64_large_lem =
      let above_d : ltb n d ≡ false = ground arith in
      let fits_d : d * 2 ^ s % 2 ^ 64 ≡ d * 2 ^ s =
        let f =
          shift_fits d (2 ^ s) (2 ^ (32 - s)) fits (powers s upper_lem.0) pos_power upper_lem.1
            upper_lem.2 in
        omega (arith, f) in
      let h = high in
      rw (above_d, fits_d, divl_lem (n / 2) w (omega (arith, h)) no_trap, estimate)
        (ap some (chosen n d small pos_d one_d few_d (n / (w * 2 ^ (32 - s))) near))
