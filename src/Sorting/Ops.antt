-- ===== src/Sorting/Ops.antt =====
-- The sorting and searching functions of lib/stdlib.c. An array stands in the bytes of memory and does not
-- reach over the end of the address space, so pointers are plain numbers; indexes are `size_t`. The
-- comparison is a parameter: it reads memory and does not change it.
use cau_assignments.Base.{
  ℕ, zero, suc, ◌+◌, ◌-◌, ◌*◌, ◌/◌, ◌%◌, ◌^◌, Bool, true, false, not, ◌&&◌, ◌||◌, ◌==◌, leb, ltb,
  if◌then◌else◌,
}
use cau_assignments.Base.Run.{Cmd, pure, out_of_fuel, ◌>>=◌, ◌>>◌, assert, gets, modify}
use cau_assignments.Strings.Ops.{Bytes, store, null, Sign, minus, zero_sign, plus}

abbrev pub Compare : Type 0
Compare = Bytes → ℕ → ℕ → Sign

-- The address of an element, by its number from 1.
abbrev pub place : ℕ → ℕ → ℕ → ℕ
place array size idx = array + (idx - 1) * size

-- The loop of `do_swap`: the rounds that are left, `a + i` and `b + i`.
unfoldable pub swap_loop : ℕ → ℕ → ℕ → Cmd Bytes (Unit {0})
swap_loop zero a b = pure tt
swap_loop (suc n) a b = do
  t ← gets (λ m. m a)
  u ← gets (λ m. m b)
  modify (store a u)
  modify (store b t)
  swap_loop n (a + 1) (b + 1)

unfoldable pub do_swap : ℕ → ℕ → ℕ → ℕ → Cmd Bytes (Unit {0})
do_swap array a_idx b_idx size = swap_loop size (place array size a_idx) (place array size b_idx)

abbrev pub positive : Sign → Bool
positive minus = false
positive zero_sign = false
positive plus = true

module _ (compare : Compare) where
  abbrev pub do_compare : ℕ → ℕ → ℕ → ℕ → Bytes → Sign
  do_compare array a_idx b_idx size m = compare m (place array size a_idx) (place array size b_idx)

  -- The index of the largest element among `i` and its children.
  unfoldable pub largest : ℕ → ℕ → ℕ → ℕ → Bytes → ℕ
  largest array i cnt size m =
      let left = 2 * i % 2 ^ 32 in
      let right = (2 * i + 1) % 2 ^ 32 in
      let upper = (if leb left cnt && positive (do_compare array left i size m) then left else i) in
      if leb right cnt && positive (do_compare array right upper size m) then right else upper

  -- The first argument bounds the rounds.
  unfoldable pub heapify : ℕ → ℕ → ℕ → ℕ → ℕ → Cmd Bytes (Unit {0})
  heapify zero array i cnt size = λ m. out_of_fuel
  heapify (suc fuel) array i cnt size = do
    max ← gets (largest array i cnt size)
    if max == i then pure tt else (do do_swap array i max size; heapify fuel array max cnt size)

  -- `for (i = cnt / 2; i > 0; i--)`, by `i`.
  unfoldable pub build_loop : ℕ → ℕ → ℕ → ℕ → ℕ → Cmd Bytes (Unit {0})
  build_loop fuel array zero cnt size = pure tt
  build_loop fuel array (suc i) cnt size = do
    heapify fuel array (suc i) cnt size
    build_loop fuel array i cnt size

  -- `for (i = cnt; i > 1; i--)`, by `i - 1`.
  unfoldable pub sort_loop : ℕ → ℕ → ℕ → ℕ → Cmd Bytes (Unit {0})
  sort_loop fuel array zero size = pure tt
  sort_loop fuel array (suc i) size = do
    do_swap array 1 (i + 2) size
    heapify fuel array 1 (i + 1) size
    sort_loop fuel array i size

  unfoldable pub sort : ℕ → ℕ → ℕ → ℕ → Cmd Bytes (Unit {0})
  sort fuel array cnt size = do
    assert (not (array == null) || (cnt == 0))
    assert (ltb 0 size)
    build_loop fuel array (cnt / 2) cnt size
    sort_loop fuel array (cnt - 1) size

  unfoldable pub search_loop : ℕ → ℕ → ℕ → ℕ → ℕ → Cmd Bytes ℕ
  search_loop zero key first last size = λ m. out_of_fuel
  search_loop (suc fuel) key first last size = if not (ltb first last) then pure null else (do
    let range = (last - first) / size
    let middle = first + range / 2 * size
    cmp ← gets (λ m. compare m key middle)
    elim cmp [
      | minus ↦ search_loop fuel key first middle size
      | plus ↦ search_loop fuel key (middle + size) last size
      | zero_sign ↦ pure middle
    ])

  unfoldable pub binary_search : ℕ → ℕ → ℕ → ℕ → ℕ → Cmd Bytes ℕ
  binary_search fuel key array cnt size = search_loop fuel key array (array + size * cnt) size

  -- The function that `aux` points to.
  abbrev pub compare_thunk : Compare
  compare_thunk m a b = compare m a b

abbrev pub qsort : Compare → ℕ → ℕ → ℕ → ℕ → Cmd Bytes (Unit {0})
qsort compare = sort (compare_thunk compare)

abbrev pub bsearch : Compare → ℕ → ℕ → ℕ → ℕ → ℕ → Cmd Bytes ℕ
bsearch compare = binary_search (compare_thunk compare)
