-- ===== src/Division/Large.antt =====
-- The division of lib/arithmetic.c by a divisor of more than 32 bits.
use native.Mathlib.Nat.{
  div-add-mod', div-mul-le_self, mul-add, add-mul, div-lt_iff_lt-mul, mod-lt, mul-le-mul,
  mul-le-mul_right, mul-le-mul_left,
}
use cau_assignments.Base.{
  ℕ, zero, suc, ◌+◌, ◌-◌, ◌*◌, ◌/◌, ◌^◌, ◌≤◌, ◌<◌, ◌≡◌, ◌⊎◌, ap, ◌∙◌, ltb, if◌then◌else◌, arith,
}
use cau_assignments.Division.Ops.{nlz, minus64}

-- `nlz` counts the leading zeros of a pattern of 32 bits.
pub nlz_lem :
    (x : ℕ)
    → 0 < x
    → x < 2 ^ 32
    → (nlz x ≤ 31) × (2 ^ 31 ≤ x * 2 ^ nlz x) × (x * 2 ^ nlz x < 2 ^ 32)
unfolding nlz
nlz_lem x pos lt = ground arith

module _ (n d : ℕ) (small : n < 2 ^ 64) (pos : 0 < d) (one : 1 ≤ n / d) (few : n / d < 2 ^ 33) where
  before : (x : ℕ) → 1 ≤ x → x < 2 ^ 64 → minus64 x 1 ≡ x - 1
  before x pos' lt = omega arith

  difference : (y : ℕ) → y ≤ n / d → minus64 n (y * d) ≡ n - y * d
  difference y le =
      let part = mul-le-mul_right d le in
      let whole = div-mul-le_self n d in omega (arith, part, whole)

  -- The choice between the estimate and the number below it.
  pub chosen :
      (x : ℕ)
      → (x ≡ n / d) ⊎ (x ≡ n / d + 1)
      → (if ltb (minus64 n (minus64 x 1 * d)) d then minus64 x 1 else x) ≡ n / d
  chosen x near =
      let b = before x (ground (arith, near)) (ground (arith, near)) in
      let diff = difference (x - 1) (ground (arith, near)) in
      let whole = div-add-mod' n d in
      let left = mod-lt n pos in
      let back : x - 1 + 1 ≡ x = ground (arith, near) in
      let all : (x - 1) * d + d ≡ x * d =
        omega (arith, add-mul (x - 1) 1 d, ap (λ y. y * d) back) in
      let low : x ≡ n / d → x * d ≡ n / d * d = λ e. ap (λ y. y * d) e in
      let high : x ≡ n / d + 1 → (x - 1) * d ≡ n / d * d =
        λ e. ap (λ y. y * d) (omega (arith, e)) in
      rw (b, diff) (ground (arith, near, whole, left, all, low, high))

room : (p r : ℕ) → p * r ≡ 2 ^ 32 → p ≤ 2 ^ 31 → 2 ^ 33 ≤ 2 ^ 31 * r + 2 * p
room p zero e le = omega (arith, e)
room p (suc zero) e le = omega (arith, e)
room p (suc (suc zero)) e le = omega (arith, e)
room p (suc (suc (suc zero))) e le = omega (arith, e)
room p (suc (suc (suc (suc r)))) e le = omega arith

-- The estimate: `p` is 2 ^ s, `r` is 2 ^ (32 - s) and `v` the upper half of the shifted divisor.
module _ (n d p r v : ℕ) (small : n < 2 ^ 64) (pos : 0 < d) (split : p * r ≡ 2 ^ 32)
    (half : p ≤ 2 ^ 31) (high : 2 ^ 31 ≤ v) (below : v * r ≤ d) (above : d < v * r + r) where
  pub few : n / d < 2 * p
  few =
      let part = mul-le-mul_left p below in
      let whole : v * (p * r) ≡ v * 2 ^ 32 = ap (λ x. v * x) split in
      (div-lt_iff_lt-mul pos).1 (omega (arith, part, whole))

  pub estimate_low : n / d * (v * r) ≤ n
  estimate_low =
      let part = mul-le-mul_left (n / d) below in
      let whole = div-mul-le_self n d in omega (arith, part, whole)

  over : (e : ℕ) → d ≡ v * r + e → e + 1 ≤ r → (n / d + 1) * e ≤ v * r
  over e sum lt =
      let le : n / d + 1 ≤ 2 * p = omega (arith, few) in
      let le' : e ≤ r - 1 = omega arith in
      let product = mul-le-mul le le' in
      let back : r - 1 + 1 ≡ r = omega arith in
      let rest : 2 * p * (r - 1) + 2 * p ≡ 2 * (p * r) =
        omega (arith, mul-add (2 * p) (r - 1) 1, ap (λ y. 2 * p * y) back) in
      let lower = mul-le-mul_right r high in
      let fits = room p r split half in omega (arith, product, rest, lower, fits, split)

  pub estimate_high : n < (n / d + 2) * (v * r)
  estimate_high =
      let whole = div-add-mod' n d in
      let left = mod-lt n pos in
      let e = d - v * r in
      let sum : d ≡ v * r + e = omega arith in
      let le = over e sum (omega arith) in
      let product : (n / d + 1) * d ≡ (n / d + 1) * (v * r) + (n / d + 1) * e =
        ap (λ x. (n / d + 1) * x) sum ∙ mul-add (n / d + 1) (v * r) e in
      omega (arith, whole, left, le, product)
