-- ===== src/Division/Quotient.antt =====
-- What the routines of lib/arithmetic.c return for all divisors.
use native.Mathlib.Nat.{div-add-mod, mod-lt, div-eq_of_lt}
use cau_assignments.Base.{
  ℕ, zero, suc, true, false, ◌*◌, ◌/◌, ◌%◌, ◌^◌, ◌≤◌, ◌<◌, ◌≡◌, ◌⊎◌, inl, inr, refl, ap, ◌∙◌, none,
  some, ◌==◌, ltb, arith, Bool-cases, sym,
}
use cau_assignments.Division.Ops.{minus64, udiv64_small, udiv64_large, udiv64, umod64}
use cau_assignments.Division.Small.{udiv64-small, umod64-some}
use cau_assignments.Division.Shift.{udiv64_large_lem}

module _ (n d : ℕ) (small : n < 2 ^ 64) (fits : d < 2 ^ 64) (big : 2 ^ 32 ≤ d) where
  large : udiv64 n d ≡ udiv64_large n d
  unfolding udiv64
  large = let upper : (d / 2 ^ 32 == 0) ≡ false = ground arith in rw upper refl

  below : n < d → udiv64_large n d ≡ some (n / d)
  unfolding udiv64_large
  below lt = let less : ltb n d ≡ true = ground arith in rw less (ap some (sym (div-eq_of_lt lt)))

  udiv64-large : udiv64 n d ≡ some (n / d)
  udiv64-large = elim (Bool-cases (ltb n d)) [
    | inl e ↦ large ∙ below (ground arith)
    | inr e ↦ large ∙ udiv64_large_lem n d small fits big (ground arith)
  ]

either : (d : ℕ) → (d < 2 ^ 32) ⊎ (2 ^ 32 ≤ d)
either d = ground arith

quotient : (n d : ℕ) → n < 2 ^ 64 → d < 2 ^ 64 → 0 < d → udiv64 n d ≡ some (n / d)
quotient n d small fits pos = elim (either d) [
  | inl lt ↦ udiv64-small n d small pos lt
  | inr big ↦ udiv64-large n d small fits big
]

-- The division of 64-bit numbers traps if the divisor is 0; otherwise it does not, and `udiv64` returns the
-- quotient.
pub udiv64_lem :
    (n d : ℕ)
    → n < 2 ^ 64
    → d < 2 ^ 64
    → ((d ≡ 0) × (udiv64 n d ≡ none)) ⊎ ((0 < d) × (udiv64 n d ≡ some (n / d)))
unfolding udiv64 udiv64_small
udiv64_lem n zero small fits = inl (refl, refl)
udiv64_lem n (suc d) small fits = inr (omega arith, quotient n (suc d) small fits (omega arith))

-- For 64-bit numbers and a divisor other than 0, `umod64` returns the lower 32 bits of the remainder: the
-- remainder itself exactly if it is below 2 ^ 32.
pub umod64_lem :
    (n d : ℕ)
    → n < 2 ^ 64
    → d < 2 ^ 64
    → 0 < d
    → (r : ℕ) × (umod64 n d ≡ some r)
      × (r ≡ n % d % 2 ^ 32)
      × (((n % d < 2 ^ 32) × (r ≡ n % d)) ⊎ ((2 ^ 32 ≤ n % d) × (r < n % d)))
umod64_lem n d small fits pos =
    let whole = div-add-mod n d in
    let left = mod-lt n pos in
    let e : minus64 n (d * (n / d)) % 2 ^ 32 ≡ n % d % 2 ^ 32 = omega (arith, whole, left) in
    (
      n % d % 2 ^ 32,
      umod64-some n d (n / d) (quotient n d small fits pos) ∙ ap some e,
      refl,
      ground arith,
    )
