-- ===== src/Pages/Ops.antt =====
-- threads/palloc.c and the functions of threads/vaddr.h that it calls. Addresses have 32 bits.
use cau_assignments.Base.{
  ℕ, ◌+◌, ◌-◌, ◌*◌, ◌/◌, ◌%◌, ◌^◌, Bool, false, not, ◌&&◌, ◌||◌, Option, none, some, ◌==◌, leb, ltb,
  if◌then◌else◌,
}
use cau_assignments.Base.Run.{Cmd, ok, panic, out_of_fuel, pure, ◌>>=◌, ◌>>◌, assert, gets, modify}
use cau_assignments.KernelList.Memory.{Ptr, null}
use cau_assignments.Threads.State.{Statics, page_size}
use cau_assignments.Threads.Synch.{Machine, Down, lock_init, lock_acquire, lock_release}
use cau_assignments.Strings.Ops.{Bytes, memset}
use cau_assignments.Bitmap.Ops.{
  Bitmap, bitmap_error, bitmap_size, bitmap_buf_size, bitmap_all, bitmap_set_multiple,
  bitmap_scan_and_flip, bitmap_create_in_buf,
}

-- `struct pool`. The lock stands in the machine, at this address.
pub record Pool : Type 0 where
  pub lock : Ptr
  pub used_map : Bitmap
  pub base : Ptr

pub data Which : Type 0 where
  kernel user : Which

-- The two pools, the machine with their locks, and the bytes of memory.
pub record Memory : Type 0 where
  pub machine : Machine
  pub kernel_pool : Pool
  pub user_pool : Pool
  pub bytes : Bytes

-- `enum palloc_flags`
pub record Flags : Type 0 where
  pub pal_assert : Bool
  pub pal_zero : Bool
  pub pal_user : Bool

-- A call has returned the address of its pages, or waits for the lock with the level to restore.
pub data Got : Type 0 where
  pages : Ptr → Got
  in_lock : Bool → Got

abbrev pub pool : Which → Memory → Pool
pool Which.kernel s = s.kernel_pool
pool Which.user s = s.user_pool

abbrev pub set_pool : Which → Pool → Memory → Memory
set_pool Which.kernel p s = record s { kernel_pool = p }
set_pool Which.user p s = record s { user_pool = p }

abbrev pub pool_of : Flags → Which
pool_of f = if f.pal_user then Which.user else Which.kernel

abbrev pub on_machine : {A : Type 0} → Cmd Machine A → Cmd Memory A
on_machine c s = elim (c s.machine) [
  | ok a w ↦ ok a (record s { machine = w })
  | panic ↦ panic
  | out_of_fuel ↦ out_of_fuel
]

abbrev pub on_bytes : {A : Type 0} → Cmd Bytes A → Cmd Memory A
on_bytes c s = elim (c s.bytes) [
  | ok a m ↦ ok a (record s { bytes = m })
  | panic ↦ panic
  | out_of_fuel ↦ out_of_fuel
]

-- An operation on the bitmap of a pool.
abbrev pub on_map : {A : Type 0} → Which → Cmd Bitmap A → Cmd Memory A
on_map x c s = elim (c (pool x s).used_map) [
  | ok a b ↦ ok a (set_pool x (record (pool x s) { used_map = b }) s)
  | panic ↦ panic
  | out_of_fuel ↦ out_of_fuel
]

abbrev pub pg_ofs : Ptr → ℕ
pg_ofs va = va % page_size

abbrev pub pg_no : Ptr → ℕ
pg_no va = va / page_size

abbrev pub div_round_up : ℕ → ℕ → ℕ
div_round_up x step = (x + step - 1) % 2 ^ 32 / step

unfoldable pub page_from_pool : Pool → Ptr → Bool
unfolding bitmap_size
page_from_pool p page =
    let page_no = pg_no page in
    let start_page = pg_no p.base in
    let end_page = (start_page + bitmap_size p.used_map) % 2 ^ 32 in
    leb start_page page_no && ltb page_no end_page

-- The fourth argument holds the words that stood at `base` before.
unfoldable pub init_pool : Which → Ptr → ℕ → (ℕ → ℕ) → Cmd Memory (Unit {0})
init_pool x base page_cnt words = do
  let bm_pages = div_round_up (bitmap_buf_size page_cnt) page_size
  assert (leb bm_pages page_cnt)
  let rest = page_cnt - bm_pages
  l ← gets (λ s. (pool x s).lock)
  on_machine (lock_init l)
  elim (bitmap_create_in_buf words rest (bm_pages * page_size)) [
    | none ↦ (λ s. panic)
    | some b ↦ modify (
        set_pool x
          (record { lock = l; used_map = b; base = (base + bm_pages * page_size) % 2 ^ 32 }))
  ]

-- `free_start` and `free_end` are the addresses of the first megabyte's end and of the end of memory.
unfoldable pub palloc_init : ℕ → Ptr → Ptr → (ℕ → ℕ) → (ℕ → ℕ) → Cmd Memory (Unit {0})
palloc_init user_page_limit free_start free_end words words' = do
  let free_pages = (free_end - free_start) / page_size
  let half = free_pages / 2
  let user_pages = (if ltb user_page_limit half then user_page_limit else half)
  let kernel_pages = free_pages - user_pages
  init_pool Which.kernel free_start kernel_pages words
  init_pool Which.user ((free_start + kernel_pages * page_size) % 2 ^ 32) user_pages words'

-- Behind the search: an address, zeroed if that is asked for, or `NULL`.
unfoldable pub deliver : Flags → Which → ℕ → ℕ → Cmd Memory Got
deliver f x page_cnt page_idx = do
  base ← gets (λ s. (pool x s).base)
  let p = (if not (page_idx == bitmap_error) then (base + page_size * page_idx) % 2 ^ 32 else null)
  (if not (p == null)
      then (if f.pal_zero
          then (on_bytes (memset p 0 (page_size * page_cnt)) >>= λ q. pure tt)
          else pure tt)
      else (if f.pal_assert then (λ s. panic) else pure tt))
  pure (Got.pages p)

module _ (v : Statics) where
  -- With the lock of the pool.
  unfoldable pub search_pool : Flags → Which → ℕ → Cmd Memory Got
  search_pool f x page_cnt = do
    l ← gets (λ s. (pool x s).lock)
    page_idx ← on_map x (bitmap_scan_and_flip 0 page_cnt false)
    on_machine (lock_release v l)
    deliver f x page_cnt page_idx

  unfoldable pub palloc_get_multiple : Flags → ℕ → Cmd Memory Got
  palloc_get_multiple f page_cnt = if page_cnt == 0 then pure (Got.pages null) else (do
    l ← gets (λ s. (pool (pool_of f) s).lock)
    r ← on_machine (lock_acquire v l)
    elim r [
      | Down.got ↦ search_pool f (pool_of f) page_cnt
      | Down.waits old ↦ pure (Got.in_lock old)
    ])

  unfoldable pub palloc_get_page : Flags → Cmd Memory Got
  unfolding palloc_get_multiple
  palloc_get_page f = palloc_get_multiple f 1

-- The pool that the pages are from.
unfoldable pub owner : Ptr → Memory → Option Which
owner p s =
    if page_from_pool s.kernel_pool p
    then some Which.kernel
    else (if page_from_pool s.user_pool p then some Which.user else none)

unfoldable pub release_pages : Ptr → ℕ → Which → Cmd Memory (Unit {0})
release_pages p page_cnt x = do
  base ← gets (λ s. (pool x s).base)
  let page_idx = pg_no p - pg_no base
  on_bytes (memset p 0xcc (page_size * page_cnt))
  used ← on_map x (bitmap_all page_idx page_cnt)
  assert used
  on_map x (bitmap_set_multiple page_idx page_cnt false)

unfoldable pub palloc_free_multiple : Ptr → ℕ → Cmd Memory (Unit {0})
palloc_free_multiple p page_cnt = do
  assert (pg_ofs p == 0)
  if (p == null) || (page_cnt == 0) then pure tt else (do
    x ← gets (owner p)
    elim x [ none ↦ (λ s. panic) | some w ↦ release_pages p page_cnt w ])

unfoldable pub palloc_free_page : Ptr → Cmd Memory (Unit {0})
unfolding palloc_free_multiple
palloc_free_page p = palloc_free_multiple p 1
