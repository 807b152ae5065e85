-- ===== src/Tests/Bits.antt =====
-- Tests of bitmaps, with the bits 0, 1 and 4 of eight set.
use cau_assignments.Base.{
  ℕ, zero, suc, ◌<◌, ◌≡◌, Bool, true, false, ◌&&◌, arith, ◌==◌, if◌then◌else◌,
}
use cau_assignments.Base.Run.{ok}
use cau_assignments.Bitmap.Ops.{Bitmap, bitmap_scan_and_flip, bool_eq}
use cau_assignments.Bitmap.Scan.{Flips, bitmap_scan_and_flip_lem}

-- Over a small range, a test is made by evaluation.
abbrev pub holds_below : ℕ → (ℕ → Bool) → Bool
holds_below zero p = true
holds_below (suc n) p = p n && holds_below n p

pub holds_below_lem : (n : ℕ) (p : ℕ → Bool) (j : ℕ) → holds_below n p ≡ true → j < n → p j ≡ true
holds_below_lem zero p j h lt = absurd (omega arith)
holds_below_lem (suc n) p j h lt = ground (arith, holds_below_lem n p j)

pub bool_eq_lem : (a b : Bool) → bool_eq a b ≡ true → a ≡ b
bool_eq_lem true b h = ground arith
bool_eq_lem false b h = ground arith

abbrev pub sample : Bitmap
sample = record { bit_cnt = 8; bits = λ i. if i == 0 then 0b10011 else 0 }

-- The first two free bits are 2 and 3.
bitmap_scan_and_flip_lem_example :
    (r : ℕ) × (b' : Bitmap) × (bitmap_scan_and_flip 1 2 false sample ≡ ok r b')
    × Flips sample 1 2 false r b'
bitmap_scan_and_flip_lem_example =
    bitmap_scan_and_flip_lem sample 1 2 false (omega arith) (omega arith)
