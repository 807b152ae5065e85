-- ===== src/Bitmap/Range.antt =====
-- The functions of bitmap.c that go over a range of bits.
use cau_assignments.Base.{
  ℕ, zero, suc, ◌+◌, ◌%◌, ◌^◌, ◌<◌, ◌≤◌, ◌≡◌, refl, Bool, true, false, not, ◌&&◌, ◌==◌, ltb, leb,
  if◌then◌else◌, arith, inl, inr, Bool-cases, ◌∙◌,
}
use cau_assignments.Base.Run.{ok}
use cau_assignments.Bitmap.Ops.{
  Bitmap, bool_eq, bitmap_set, in_range, fill_loop, bitmap_set_multiple, count_loop, bitmap_count,
  contains_loop, bitmap_contains,
}
use cau_assignments.Bitmap.Bit.{
  member, changed, bitmap_test_lem, bitmap_set_lem, member-changed, bit_cnt-changed,
}

-- A range of bits that the bitmap has.
pub record Fits (b : Bitmap) (start cnt : ℕ) : Type 0 where
  pub inside : start + cnt ≤ b.bit_cnt
  pub size : b.bit_cnt < 2 ^ 32

abbrev pub within : ℕ → ℕ → ℕ → Bool
within start cnt j = leb start j && ltb j (start + cnt)

-- The set with a range all in it or all out of it.
pub record Filled (b : Bitmap) (start cnt : ℕ) (v : Bool) (b' : Bitmap) : Type 0 where
  pub same_size : b'.bit_cnt ≡ b.bit_cnt
  pub members : (j : ℕ) → member b' j ≡ (if within start cnt j then v else member b j)

pub in_range_lem : (b : Bitmap) (start cnt : ℕ) → Fits b start cnt → in_range start cnt b ≡ ok tt b
unfolding in_range
in_range_lem b start cnt f = let i = f.inside in let s = f.size in ground arith

fill_loop-next :
    (b b1 : Bitmap) (n at : ℕ) (v : Bool)
    → bitmap_set at v b ≡ ok tt b1
    → (at + 1) % 2 ^ 32 ≡ at + 1
    → fill_loop (suc n) at v b ≡ fill_loop n (at + 1) v b1
unfolding fill_loop
fill_loop-next b b1 n at v sets small = rw (sets, small) refl

fill_loop_lem :
    (n : ℕ) (b : Bitmap) (at : ℕ) (v : Bool)
    → Fits b at n
    → (b' : Bitmap) × (fill_loop n at v b ≡ ok tt b') × Filled b at n v b'
unfolding fill_loop
fill_loop_lem zero b at v f = (b, refl, record { same_size = refl; members = λ j. ground arith })
fill_loop_lem (suc n) b at v f =
    let i = f.inside in
    let s = f.size in
    let b1 = changed at v b in
    let size1 = bit_cnt-changed b at v in
    let f1 : Fits b1 (at + 1) n = record { inside = omega arith; size = omega arith } in
    let (b', runs, filled) = fill_loop_lem n b1 (at + 1) v f1 in
    (
      b',
      fill_loop-next b b1 n at v (bitmap_set_lem b at v (omega arith)) (omega arith) ∙ runs,
      record {
        same_size = filled.same_size ∙ size1;
        members = λ j. ground (arith, filled.members j, member-changed b at j v);
      },
    )

-- `bitmap_set_multiple` on a range that the bitmap has puts all of it into the set or takes all of it out,
-- and changes no other bit.
pub bitmap_set_multiple_lem :
    (b : Bitmap) (start cnt : ℕ) (v : Bool)
    → Fits b start cnt
    → (b' : Bitmap) × (bitmap_set_multiple start cnt v b ≡ ok tt b') × Filled b start cnt v b'
unfolding bitmap_set_multiple
bitmap_set_multiple_lem b start cnt v f =
    let (b', runs, filled) = fill_loop_lem cnt b start v f in
    (b', rw (in_range_lem b start cnt f) runs, filled)

-- How many bits of a range have a value, and whether one has.
abbrev pub count_in : (ℕ → Bool) → ℕ → ℕ → Bool → ℕ
count_in f at zero v = 0
count_in f at (suc n) v = (if bool_eq (f at) v then 1 else 0) + count_in f (at + 1) n v

abbrev pub any_in : (ℕ → Bool) → ℕ → ℕ → Bool → Bool
any_in f at zero v = false
any_in f at (suc n) v = if bool_eq (f at) v then true else any_in f (at + 1) n v

pub any_in-false :
    (f : ℕ → Bool) (n at : ℕ) (v : Bool) (j : ℕ)
    → any_in f at n v ≡ false
    → within at n j ≡ true
    → f j ≡ not v
any_in-false f zero at v j h w = ground arith
any_in-false f (suc n) at v j h w = elim (Bool-cases (j == at)) [
  | inl here ↦ ground arith
  | inr later ↦ any_in-false f n (at + 1) v j (ground arith) (ground arith)
]

pub any_in-true :
    (f : ℕ → Bool) (n at : ℕ) (v : Bool)
    → any_in f at n v ≡ true
    → (j : ℕ) × (within at n j ≡ true) × (f j ≡ v)
any_in-true f zero at v h = ground arith
any_in-true f (suc n) at v h = elim (Bool-cases (bool_eq (f at) v)) [
  | inl here ↦ (at, ground arith, ground arith)
  | inr later ↦ let (j, w, e) = any_in-true f n (at + 1) v (ground arith) in (j, ground arith, e)
]

count_loop_lem :
    (n : ℕ) (b : Bitmap) (at : ℕ) (v : Bool) (acc : ℕ)
    → Fits b at n
    → count_loop n at v acc b ≡ ok (acc + count_in (member b) at n v) b
unfolding count_loop
count_loop_lem zero b at v acc f = ground arith
count_loop_lem (suc n) b at v acc f =
    let i = f.inside in
    let s = f.size in
    let small : (at + 1) % 2 ^ 32 ≡ at + 1 = omega arith in
    let f1 : Fits b (at + 1) n = record { inside = omega arith; size = s } in
    rw (bitmap_test_lem b at (omega arith), small)
      (ground
        (arith, count_loop_lem n b (at + 1) v acc f1, count_loop_lem n b (at + 1) v (acc + 1) f1))

contains_loop_lem :
    (n : ℕ) (b : Bitmap) (at : ℕ) (v : Bool)
    → Fits b at n
    → contains_loop n at v b ≡ ok (any_in (member b) at n v) b
unfolding contains_loop
contains_loop_lem zero b at v f = refl
contains_loop_lem (suc n) b at v f =
    let i = f.inside in
    let s = f.size in
    let small : (at + 1) % 2 ^ 32 ≡ at + 1 = omega arith in
    let f1 : Fits b (at + 1) n = record { inside = omega arith; size = s } in
    rw (bitmap_test_lem b at (omega arith), small)
      (ground (arith, contains_loop_lem n b (at + 1) v f1))

-- `bitmap_count` counts the bits of a range that have the value.
pub bitmap_count_lem :
    (b : Bitmap) (start cnt : ℕ) (v : Bool)
    → Fits b start cnt
    → bitmap_count start cnt v b ≡ ok (count_in (member b) start cnt v) b
unfolding bitmap_count
bitmap_count_lem b start cnt v f =
    ground (arith, in_range_lem b start cnt f, count_loop_lem cnt b start v 0 f)

-- `bitmap_contains` tells whether a bit of a range has the value.
pub bitmap_contains_lem :
    (b : Bitmap) (start cnt : ℕ) (v : Bool)
    → Fits b start cnt
    → bitmap_contains start cnt v b ≡ ok (any_in (member b) start cnt v) b
unfolding bitmap_contains
bitmap_contains_lem b start cnt v f =
    rw (in_range_lem b start cnt f) (contains_loop_lem cnt b start v f)
