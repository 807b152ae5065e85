-- ===== src/Base/Bits.antt =====
-- The binary digits of a number, lowest first, and what the operations on bit patterns do to them.
use Prim.Native.Nat.{
  ℕ, zero, suc, ◌+◌, ◌-◌, ◌*◌, ◌/◌, ◌%◌, ◌^◌, ◌≤◌, ◌<◌, min, max, bit_and, bit_or, bit_xor, digits,
  differ, bit_and-bitwise, bit_or-bitwise, bit_xor-bitwise,
}
use mathlib.Core.Logic.{inl, inr}
use mathlib.Core.Path.{◌≡◌, refl, ap, ◌∙◌}
use native.Mathlib.Omega.{arith}
use native.Mathlib.Nat.{two-pow-succ}
use cau_assignments.Base.Tests.{◌==◌, if◌then◌else◌, Bool-cases}

abbrev pub bit : ℕ → ℕ → ℕ
bit w zero = w % 2
bit w (suc j) = bit (w / 2) j

pub bit-lt : (w j : ℕ) → bit w j < 2
bit-lt w zero = omega arith
bit-lt w (suc j) = bit-lt (w / 2) j

bit-zero : (j : ℕ) → bit 0 j ≡ 0
bit-zero zero = refl
bit-zero (suc j) = bit-zero j

-- An operation digit by digit acts on each digit.
module _ (z : ℕ → ℕ) (f : ℕ → ℕ → ℕ) (small : (a b : ℕ) → f (a % 2) (b % 2) < 2)
    (ends : (b j : ℕ) → bit (z b) j ≡ f 0 (bit b j)) where
  bit-digits : (n a b j : ℕ) → a ≤ n → bit (digits z f n a b) j ≡ f (bit a j) (bit b j)
  bit-digits zero zero b j le = ends b j ∙ ap (λ x. f x (bit b j)) (omega (arith, bit-zero j))
  bit-digits zero (suc a) b j le = absurd (omega arith)
  bit-digits (suc n) zero b j le = ends b j ∙ ap (λ x. f x (bit b j)) (omega (arith, bit-zero j))
  bit-digits (suc n) (suc a) b zero le = omega (arith, small (suc a) b)
  bit-digits (suc n) (suc a) b (suc j) le =
      let rest = digits z f n (suc a / 2) (b / 2) in
      let half : (rest * 2 + f (suc a % 2) (b % 2)) / 2 ≡ rest = omega (arith, small (suc a) b) in
      ap (λ w. bit w j) half ∙ bit-digits n (suc a / 2) (b / 2) j (omega arith)

pub bit-bit_and : (a b j : ℕ) → bit (bit_and a b) j ≡ min (bit a j) (bit b j)
bit-bit_and a b j =
    ap (λ w. bit w j) (bit_and-bitwise a b)
    ∙ bit-digits (λ x. zero) min (λ x y. omega arith) (λ x i. omega (arith, bit-zero i, bit-lt x i))
        a a b j (omega arith)

pub bit-bit_or : (a b j : ℕ) → bit (bit_or a b) j ≡ max (bit a j) (bit b j)
bit-bit_or a b j =
    ap (λ w. bit w j) (bit_or-bitwise a b)
    ∙ bit-digits (λ x. x) max (λ x y. omega arith) (λ x i. omega arith) a a b j (omega arith)

differ-lt : (a b : ℕ) → a < 2 → b < 2 → differ a b < 2
differ-lt zero b p q = q
differ-lt (suc a) zero p q = p
differ-lt (suc a) (suc b) p q = differ-lt a b (omega arith) (omega arith)

pub bit-bit_xor : (a b j : ℕ) → bit (bit_xor a b) j ≡ differ (bit a j) (bit b j)
bit-bit_xor a b j =
    ap (λ w. bit w j) (bit_xor-bitwise a b)
    ∙ bit-digits (λ x. x) differ (λ x y. differ-lt (x % 2) (y % 2) (omega arith) (omega arith))
        (λ x i. refl) a a b j (omega arith)

-- A mask of one digit.
pub bit-power : (k j : ℕ) → bit (2 ^ k) j ≡ (if j == k then 1 else 0)
bit-power zero zero = refl
bit-power zero (suc j) = ground (arith, bit-zero j)
bit-power (suc k) zero = ground (arith, two-pow-succ k)
bit-power (suc k) (suc j) =
    let half : 2 ^ suc k / 2 ≡ 2 ^ k = omega (arith, two-pow-succ k) in
    ground (arith, half, bit-power k j)

power-pos : (k : ℕ) → 0 < 2 ^ k
power-pos zero = omega arith
power-pos (suc k) = omega (arith, power-pos k, two-pow-succ k)

pub power-lt : (n k : ℕ) → k < n → 2 ^ k < 2 ^ n
power-lt zero k lt = absurd (omega arith)
power-lt (suc n) zero lt = omega (arith, power-pos n, two-pow-succ n)
power-lt (suc n) (suc k) lt =
    omega (arith, power-lt n k (omega arith), two-pow-succ n, two-pow-succ k)

-- The complement of a pattern of `n` digits.
pub bit-complement : (n m j : ℕ) → m < 2 ^ n → j < n → bit (2 ^ n - 1 - m) j ≡ 1 - bit m j
bit-complement zero m j lt few = absurd (omega arith)
bit-complement (suc n) m zero lt few = omega (arith, two-pow-succ n)
bit-complement (suc n) m (suc j) lt few =
    let half : (2 ^ suc n - 1 - m) / 2 ≡ 2 ^ n - 1 - m / 2 = omega (arith, two-pow-succ n) in
    ap (λ w. bit w j) half
    ∙ bit-complement n (m / 2) j (omega (arith, two-pow-succ n)) (omega arith)

-- A pattern is 0 when all its digits are.
zero_of_bits : (n w : ℕ) → w ≤ n → ((j : ℕ) → bit w j ≡ 0) → w ≡ 0
zero_of_bits zero w le none = omega arith
zero_of_bits (suc n) zero le none = refl
zero_of_bits (suc n) (suc w) le none =
    let low = none 0 in
    let half = zero_of_bits n (suc w / 2) (omega arith) (λ j. none (suc j)) in omega arith

-- The test of one digit.
pub bit_and-power : (w k : ℕ) → (bit_and w (2 ^ k) == 0) ≡ (bit w k == 0)
bit_and-power w k = elim (Bool-cases (bit w k == 0)) [
  | inl off ↦
      let none : bit_and w (2 ^ k) ≡ 0 =
        zero_of_bits (bit_and w (2 ^ k)) (bit_and w (2 ^ k)) (omega arith)
          (λ j. ground (arith, bit-bit_and w (2 ^ k) j, bit-power k j)) in
      ground arith
  | inr on ↦ ground (arith, bit-bit_and w (2 ^ k) k, bit-power k k, bit-zero k)
]
