-- ===== src/Bitmap/Bit.antt =====
-- A bitmap seen as a set of numbers, and what the operations on one bit do to it.
use cau_assignments.Base.{
  ℕ, ◌-◌, ◌/◌, ◌%◌, ◌^◌, ◌<◌, ◌≡◌, refl, Bool, true, false, not, ◌&&◌, ◌||◌, ◌==◌, if◌then◌else◌,
  arith,
}
use cau_assignments.Base.Bits.{
  bit, bit-lt, bit-bit_and, bit-bit_or, bit-bit_xor, bit-power, bit-complement, power-lt,
  bit_and-power,
}
use cau_assignments.Base.Run.{ok}
use cau_assignments.Bitmap.Ops.{
  Bitmap, bitmap_mark, bitmap_reset, bitmap_flip, bitmap_set, bitmap_test,
}

-- Is the number in the set?
abbrev pub member : Bitmap → ℕ → Bool
member b i = not (bit (b.bits (i / 32)) (i % 32) == 0)

same_place : (i j : ℕ) → i / 32 ≡ j / 32 → i % 32 ≡ j % 32 → i ≡ j
same_place i j p q = omega arith

pub member-mark : (b : Bitmap) (i j : ℕ) → member (bitmap_mark i b) j ≡ ((j == i) || member b j)
unfolding bitmap_mark
member-mark b i j = ground (
  arith,
  bit-bit_or (b.bits (i / 32)) (2 ^ (i % 32)) (j % 32),
  bit-power (i % 32) (j % 32),
  bit-lt (b.bits (i / 32)) (j % 32),
  same_place j i,
)

pub member-reset :
    (b : Bitmap) (i j : ℕ) → member (bitmap_reset i b) j ≡ (not (j == i) && member b j)
unfolding bitmap_reset
member-reset b i j =
    let lt : 2 ^ (i % 32) < 2 ^ 32 = power-lt 32 (i % 32) (omega arith) in
    let few : j % 32 < 32 = omega arith in
    let off : bit (2 ^ 32 - 1 - 2 ^ (i % 32)) (j % 32) ≡ 1 - bit (2 ^ (i % 32)) (j % 32) =
      bit-complement 32 (2 ^ (i % 32)) (j % 32) lt few in
    ground (
      arith,
      bit-bit_and (b.bits (i / 32)) (2 ^ 32 - 1 - 2 ^ (i % 32)) (j % 32),
      off,
      bit-power (i % 32) (j % 32),
      bit-lt (b.bits (i / 32)) (j % 32),
      same_place j i,
    )

pub member-flip :
    (b : Bitmap) (i j : ℕ)
    → member (bitmap_flip i b) j ≡ (if j == i then not (member b j) else member b j)
unfolding bitmap_flip
member-flip b i j = ground (
  arith,
  bit-bit_xor (b.bits (i / 32)) (2 ^ (i % 32)) (j % 32),
  bit-power (i % 32) (j % 32),
  bit-lt (b.bits (i / 32)) (j % 32),
  same_place j i,
)

pub bitmap_test_lem : (b : Bitmap) (i : ℕ) → i < b.bit_cnt → bitmap_test i b ≡ ok (member b i) b
unfolding bitmap_test
bitmap_test_lem b i lt = ground (arith, bit_and-power (b.bits (i / 32)) (i % 32))

-- The set with `i` in it or not.
abbrev pub changed : ℕ → Bool → Bitmap → Bitmap
changed i v b = if v then bitmap_mark i b else bitmap_reset i b

pub bitmap_set_lem :
    (b : Bitmap) (i : ℕ) (v : Bool) → i < b.bit_cnt → bitmap_set i v b ≡ ok tt (changed i v b)
unfolding bitmap_set
bitmap_set_lem b i v lt = ground arith

pub member-changed :
    (b : Bitmap) (i j : ℕ) (v : Bool)
    → member (changed i v b) j ≡ (if j == i then v else member b j)
member-changed b i j true = ground (arith, member-mark b i j)
member-changed b i j false = ground (arith, member-reset b i j)

pub bit_cnt-changed : (b : Bitmap) (i : ℕ) (v : Bool) → (changed i v b).bit_cnt ≡ b.bit_cnt
unfolding bitmap_mark bitmap_reset
bit_cnt-changed b i true = refl
bit_cnt-changed b i false = refl
