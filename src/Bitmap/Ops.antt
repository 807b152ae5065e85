-- ===== src/Bitmap/Ops.antt =====
-- lib/kernel/bitmap.c: sets of small numbers, packed into words of 32 bits. The pointer to the bitmap is
-- not `NULL`; numbers of bits are `size_t`, of 32 bits.
use Prim.Native.Nat.{bit_and, bit_or, bit_xor}
use cau_assignments.Base.{
  ℕ, zero, suc, ◌+◌, ◌-◌, ◌*◌, ◌/◌, ◌%◌, ◌^◌, Bool, true, false, not, Option, none, some, ◌==◌, leb,
  ltb, if◌then◌else◌,
}
use cau_assignments.Base.Run.{Cmd, ok, panic, out_of_fuel, pure, ◌>>=◌, ◌>>◌, assert, gets, modify}

abbrev pub elem_bits : ℕ
elem_bits = 32

abbrev pub bitmap_error : ℕ
bitmap_error = 2 ^ 32 - 1

pub record Bitmap : Type 0 where
  pub bit_cnt : ℕ
  pub bits : ℕ → ℕ

abbrev pub elem_idx : ℕ → ℕ
elem_idx bit_idx = bit_idx / elem_bits

abbrev pub bit_mask : ℕ → ℕ
bit_mask bit_idx = 2 ^ (bit_idx % elem_bits)

abbrev pub elem_cnt : ℕ → ℕ
elem_cnt bit_cnt = (bit_cnt + elem_bits - 1) % 2 ^ 32 / elem_bits

abbrev pub byte_cnt : ℕ → ℕ
byte_cnt bit_cnt = 4 * elem_cnt bit_cnt

-- `sizeof (struct bitmap)` is 8.
abbrev pub bitmap_buf_size : ℕ → ℕ
bitmap_buf_size bit_cnt = 8 + byte_cnt bit_cnt

abbrev pub set_word : ℕ → ℕ → Bitmap → Bitmap
set_word i w b = record b { bits = λ k. if k == i then w else b.bits k }

abbrev pub bool_eq : Bool → Bool → Bool
bool_eq true y = y
bool_eq false y = not y

-- The complement of a word.
abbrev pub inverted : ℕ → ℕ
inverted w = 2 ^ 32 - 1 - w

unfoldable pub bitmap_size : Bitmap → ℕ
bitmap_size b = b.bit_cnt

unfoldable pub bitmap_mark : ℕ → Bitmap → Bitmap
bitmap_mark bit_idx b =
    let idx = elem_idx bit_idx in set_word idx (bit_or (b.bits idx) (bit_mask bit_idx)) b

unfoldable pub bitmap_reset : ℕ → Bitmap → Bitmap
bitmap_reset bit_idx b =
    let idx = elem_idx bit_idx in
    set_word idx (bit_and (b.bits idx) (inverted (bit_mask bit_idx))) b

unfoldable pub bitmap_flip : ℕ → Bitmap → Bitmap
bitmap_flip bit_idx b =
    let idx = elem_idx bit_idx in set_word idx (bit_xor (b.bits idx) (bit_mask bit_idx)) b

unfoldable pub bitmap_set : ℕ → Bool → Cmd Bitmap (Unit {0})
bitmap_set idx value = do
  n ← gets (λ b. b.bit_cnt)
  assert (ltb idx n)
  if value then modify (bitmap_mark idx) else modify (bitmap_reset idx)

unfoldable pub bitmap_test : ℕ → Cmd Bitmap Bool
bitmap_test idx = do
  n ← gets (λ b. b.bit_cnt)
  assert (ltb idx n)
  gets (λ b. not (bit_and (b.bits (elem_idx idx)) (bit_mask idx) == 0))

-- The assertions of the functions on a range.
unfoldable pub in_range : ℕ → ℕ → Cmd Bitmap (Unit {0})
in_range start cnt = do
  n ← gets (λ b. b.bit_cnt)
  assert (leb start n)
  assert (leb ((start + cnt) % 2 ^ 32) n)

-- The loops over a range: the rounds that are left, and `start + i`.
unfoldable pub fill_loop : ℕ → ℕ → Bool → Cmd Bitmap (Unit {0})
fill_loop zero at value = pure tt
fill_loop (suc n) at value = do bitmap_set at value; fill_loop n ((at + 1) % 2 ^ 32) value

unfoldable pub bitmap_set_multiple : ℕ → ℕ → Bool → Cmd Bitmap (Unit {0})
bitmap_set_multiple start cnt value = do in_range start cnt; fill_loop cnt start value

unfoldable pub bitmap_set_all : Bool → Cmd Bitmap (Unit {0})
bitmap_set_all value = do n ← gets bitmap_size; bitmap_set_multiple 0 n value

unfoldable pub count_loop : ℕ → ℕ → Bool → ℕ → Cmd Bitmap ℕ
count_loop zero at value value_cnt = pure value_cnt
count_loop (suc n) at value value_cnt = do
  x ← bitmap_test at
  count_loop n ((at + 1) % 2 ^ 32) value (if bool_eq x value then value_cnt + 1 else value_cnt)

unfoldable pub bitmap_count : ℕ → ℕ → Bool → Cmd Bitmap ℕ
bitmap_count start cnt value = do in_range start cnt; count_loop cnt start value 0

unfoldable pub contains_loop : ℕ → ℕ → Bool → Cmd Bitmap Bool
contains_loop zero at value = pure false
contains_loop (suc n) at value = do
  x ← bitmap_test at
  if bool_eq x value then pure true else contains_loop n ((at + 1) % 2 ^ 32) value

unfoldable pub bitmap_contains : ℕ → ℕ → Bool → Cmd Bitmap Bool
bitmap_contains start cnt value = do in_range start cnt; contains_loop cnt start value

unfoldable pub bitmap_any : ℕ → ℕ → Cmd Bitmap Bool
bitmap_any start cnt = bitmap_contains start cnt true

unfoldable pub bitmap_none : ℕ → ℕ → Cmd Bitmap Bool
bitmap_none start cnt = do x ← bitmap_contains start cnt true; pure (not x)

unfoldable pub bitmap_all : ℕ → ℕ → Cmd Bitmap Bool
bitmap_all start cnt = do x ← bitmap_contains start cnt false; pure (not x)

-- The loop of `bitmap_scan`: the values of `i` that are left, and `i`.
unfoldable pub scan_loop : ℕ → ℕ → ℕ → Bool → Cmd Bitmap ℕ
scan_loop zero i cnt value = pure bitmap_error
scan_loop (suc n) i cnt value = do
  x ← bitmap_contains i cnt (not value)
  if not x then pure i else scan_loop n (i + 1) cnt value

unfoldable pub bitmap_scan : ℕ → ℕ → Bool → Cmd Bitmap ℕ
bitmap_scan start cnt value = do
  n ← gets (λ b. b.bit_cnt)
  assert (leb start n)
  if leb cnt n then scan_loop (n - cnt + 1 - start) start cnt value else pure bitmap_error

unfoldable pub bitmap_scan_and_flip : ℕ → ℕ → Bool → Cmd Bitmap ℕ
bitmap_scan_and_flip start cnt value = do
  idx ← bitmap_scan start cnt value
  (if not (idx == bitmap_error) then bitmap_set_multiple idx cnt (not value) else pure tt)
  pure idx

-- The words at `b + 1` before `bitmap_set_all` are whatever the block held; `block_size` is what the
-- caller has room for.
unfoldable pub bitmap_create_in_buf : (ℕ → ℕ) → ℕ → ℕ → Option Bitmap
bitmap_create_in_buf words bit_cnt block_size =
    if leb (bitmap_buf_size bit_cnt) block_size
    then elim (bitmap_set_all false (record { bit_cnt = bit_cnt; bits = words })) [
      | ok u b ↦ some b
      | panic ↦ none
      | out_of_fuel ↦ none
    ]
    else none
