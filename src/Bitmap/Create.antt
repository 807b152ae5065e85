-- ===== src/Bitmap/Create.antt =====
-- `bitmap_create_in_buf` makes an empty set of whatever words the block holds.
use cau_assignments.Base.{ℕ, ◌+◌, ◌-◌, ◌*◌, ◌/◌, ◌%◌, ◌^◌, ◌<◌, ◌≤◌, ◌≡◌, false, some, arith}
use cau_assignments.Base.Run.{ok}
use cau_assignments.Bitmap.Ops.{
  Bitmap, bitmap_size, bitmap_set_multiple, bitmap_set_all, bitmap_create_in_buf,
}
use cau_assignments.Bitmap.Bit.{member}
use cau_assignments.Bitmap.Range.{Fits, bitmap_set_multiple_lem}

all-runs :
    (b b' : Bitmap)
    → bitmap_set_multiple 0 b.bit_cnt false b ≡ ok tt b'
    → bitmap_set_all false b ≡ ok tt b'
unfolding bitmap_set_all bitmap_size
all-runs b b' sets = sets

create-runs :
    (words : ℕ → ℕ) (n size : ℕ) (b : Bitmap)
    → n + 31 < 2 ^ 32
    → 8 + 4 * ((n + 31) / 32) ≤ size
    → bitmap_set_all false (record { bit_cnt = n; bits = words }) ≡ ok tt b
    → bitmap_create_in_buf words n size ≡ some b
unfolding bitmap_create_in_buf
create-runs words n size b small room sets =
    let whole : (n + 32 - 1) % 2 ^ 32 / 32 ≡ (n + 31) / 32 = omega arith in
    ground (arith, whole, sets)

-- A block that has room for `n` bits becomes a bitmap of `n` bits, none of which is set.
pub bitmap_create_in_buf_lem :
    (words : ℕ → ℕ) (n size : ℕ)
    → n + 31 < 2 ^ 32
    → 8 + 4 * ((n + 31) / 32) ≤ size
    → (b : Bitmap) × (bitmap_create_in_buf words n size ≡ some b)
      × (b.bit_cnt ≡ n)
      × ((j : ℕ) → j < n → member b j ≡ false)
bitmap_create_in_buf_lem words n size small room =
    let b0 : Bitmap = record { bit_cnt = n; bits = words } in
    let f : Fits b0 0 n = record { inside = omega arith; size = omega arith } in
    let (b, sets, fills) = bitmap_set_multiple_lem b0 0 n false f in
    (
      b,
      create-runs words n size b small room (all-runs b0 b sets),
      fills.same_size,
      λ j lt. ground (arith, fills.members j),
    )
