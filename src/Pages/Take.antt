-- ===== src/Pages/Take.antt =====
-- Taking pages: `palloc_get_multiple`.
use cau_assignments.Base.{
  ℕ, ◌+◌, ◌*◌, ◌%◌, ◌^◌, ◌<◌, ◌≤◌, ◌≡◌, refl, true, false, [], ◌∷◌, ◌==◌, if◌then◌else◌, arith, ◌⊎◌,
  inl, inr, ap, ap₂, ◌∙◌,
}
use cau_assignments.Base.Run.{Run, ok, panic}
use cau_assignments.KernelList.Memory.{Ptr, null}
use cau_assignments.KernelList.Family.{Family}
use cau_assignments.Threads.State.{Statics}
use cau_assignments.Threads.View.{Queues, lists}
use cau_assignments.Threads.Synch.{Machine, Down, waiters, lock_sema, lock_acquire, lock_release}
use cau_assignments.Threads.Locks.{InThread}
use cau_assignments.Threads.Acquire.{locked, lock_acquire-free, lock_release-locked}
use cau_assignments.Strings.Fill.{filled, memset_lem}
use cau_assignments.Bitmap.Ops.{Bitmap, bitmap_error, bitmap_scan_and_flip}
use cau_assignments.Bitmap.Range.{Filled}
use cau_assignments.Bitmap.Scan.{FirstGroup, NoGroup, group_limit, bitmap_scan_and_flip_lem}
use cau_assignments.Pages.Ops.{
  Pool, Which, Memory, Flags, Got, pool, set_pool, pool_of, deliver, search_pool,
  palloc_get_multiple,
}

-- A running thread, and a lock that is free.
pub record Unlocked (v : Statics) (q : Queues) (w : Machine) (l : Ptr) : Type 0 where
  pub caller : InThread w
  pub no_handler : w.kernel.in_external_intr ≡ false
  pub real : (l == null) ≡ false
  pub unheld : w.holder l ≡ null
  pub available : w.value (lock_sema l) ≡ 1
  pub no_waiters : Family w.kernel.mem ((waiters (lock_sema l), []) ∷ lists v q)

-- The pages of a pool lie at addresses of 32 bits.
pub record InMemory (p : Pool) : Type 0 where
  pub aligned : p.base % 4096 ≡ 0
  pub positive : 0 < p.base
  pub room : p.base + 4096 * p.used_map.bit_cnt ≤ 2 ^ 32

abbrev pub page_at : Pool → ℕ → Ptr
page_at p i = p.base + 4096 * i

-- The memory with another bitmap for a pool.
abbrev pub with_map : Which → Bitmap → Memory → Memory
with_map x b s = set_pool x (record (pool x s) { used_map = b }) s

abbrev pub zeroed : Flags → Ptr → ℕ → Memory → Memory
zeroed f p cnt s = if f.pal_zero then record s { bytes = filled p 0 (4096 * cnt) s.bytes } else s

pub deliver-found :
    (f : Flags) (x : Which) (cnt i : ℕ) (s : Memory) (p : Ptr)
    → page_at (pool x s) i ≡ p
    → (i == bitmap_error) ≡ false
    → p % 2 ^ 32 ≡ p
    → (p == null) ≡ false
    → deliver f x cnt i s ≡ ok (Got.pages p) (zeroed f p cnt s)
unfolding deliver
deliver-found f x cnt i s p at found fits real =
    ground (arith, at, found, fits, real, memset_lem p 0 (4096 * cnt) s.bytes (ground arith))

base-with_map :
    (x : Which) (b : Bitmap) (s : Memory) (i : ℕ)
    → page_at (pool x (with_map x b s)) i ≡ page_at (pool x s) i
base-with_map Which.kernel b s i = refl
base-with_map Which.user b s i = refl

pub with_map_self : (x : Which) (s : Memory) → with_map x (pool x s).used_map s ≡ s
with_map_self Which.kernel s = refl
with_map_self Which.user s = refl

pub deliver-none :
    (f : Flags) (x : Which) (cnt : ℕ) (s : Memory)
    → deliver f x cnt bitmap_error s ≡ (if f.pal_assert then panic else ok (Got.pages null) s)
unfolding deliver
deliver-none f x cnt s = ground arith

search-runs :
    (v : Statics) (f : Flags) (x : Which) (cnt i : ℕ) (s : Memory) (w w' : Machine) (b : Bitmap)
    (r : Run Memory Got)
    → bitmap_scan_and_flip 0 cnt false (pool x s).used_map ≡ ok i b
    → lock_release v (pool x s).lock w ≡ ok tt w'
    → deliver f x cnt i (record (with_map x b s) { machine = w' }) ≡ r
    → search_pool v f x cnt (record s { machine = w }) ≡ r
unfolding search_pool
search-runs v f Which.kernel cnt i s w w' b r flips gives ends = ground (arith, flips, gives, ends)
search-runs v f Which.user cnt i s w w' b r flips gives ends = ground (arith, flips, gives, ends)

get-runs :
    (v : Statics) (f : Flags) (cnt : ℕ) (s : Memory) (w : Machine) (r : Run Memory Got)
    → (cnt == 0) ≡ false
    → lock_acquire v (pool (pool_of f) s).lock s.machine ≡ ok Down.got w
    → search_pool v f (pool_of f) cnt (record s { machine = w }) ≡ r
    → palloc_get_multiple v f cnt s ≡ r
unfolding palloc_get_multiple
get-runs v f cnt s w r some takes searches = ground (arith, some, takes, searches)

same_machine :
    (x : Which) (b : Bitmap) (s : Memory)
    → record (with_map x b s) { machine = s.machine } ≡ with_map x b s
same_machine Which.kernel b s = refl
same_machine Which.user b s = refl

-- Searching with the lock of the pool, which is free before and after.
get-searches :
    (v : Statics) (q : Queues) (f : Flags) (cnt i : ℕ) (s : Memory) (b : Bitmap)
    → let x = pool_of f in
      Unlocked v q s.machine (pool x s).lock
      → (cnt == 0) ≡ false
      → bitmap_scan_and_flip 0 cnt false (pool x s).used_map ≡ ok i b
      → palloc_get_multiple v f cnt s ≡ deliver f x cnt i (with_map x b s)
get-searches v q f cnt i s b u some flips =
    let x = pool_of f in
    let l = (pool x s).lock in
    let w = s.machine in
    let thread = u.caller.thread in
    let takes =
      lock_acquire-free v w l u.caller u.no_handler u.real (ground (arith, u.unheld, thread))
        u.available in
    let gives = lock_release-locked v w q l u.caller u.real u.no_waiters u.unheld u.available in
    get-runs v f cnt s (locked l w) _ some takes (
      search-runs v f x cnt i s (locked l w) w b _ flips gives
        (ap (deliver f x cnt i) (same_machine x b s)))

-- What a call of `palloc_get_multiple` comes to.
abbrev pub Taken : Statics → Flags → ℕ → Memory → ℕ → Bitmap → Type 0
Taken v f cnt s i b =
    let x = pool_of f in
    let m = (pool x s).used_map in
    FirstGroup m 0 (group_limit m cnt) cnt false i
    × Filled m i cnt true b
    × (palloc_get_multiple v f cnt s
        ≡ ok (Got.pages (page_at (pool x s) i))
            (zeroed f (page_at (pool x s) i) cnt (with_map x b s)))

abbrev pub Refused : Statics → Flags → ℕ → Memory → Type 0
Refused v f cnt s =
    let m = (pool (pool_of f) s).used_map in
    NoGroup m 0 (group_limit m cnt) cnt false
    × (palloc_get_multiple v f cnt s ≡ (if f.pal_assert then panic else ok (Got.pages null) s))

-- In a running thread, with the lock of the pool free, `palloc_get_multiple` for at least one page returns
-- the first group of free pages, marked as used and zeroed if that was asked for; if there is none, it
-- panics or returns `NULL`, as was asked for, and changes nothing.
pub palloc_get_multiple_lem :
    (v : Statics) (q : Queues) (f : Flags) (cnt : ℕ) (s : Memory)
    → Unlocked v q s.machine (pool (pool_of f) s).lock
    → InMemory (pool (pool_of f) s)
    → (cnt == 0) ≡ false
    → ((i : ℕ) × (b : Bitmap) × Taken v f cnt s i b) ⊎ Refused v f cnt s
palloc_get_multiple_lem v q f cnt s u p some =
    let x = pool_of f in
    let m = (pool x s).used_map in
    let room = p.room in
    let positive = p.positive in
    let (i, b, flips, r) = bitmap_scan_and_flip_lem m 0 cnt false (omega arith) (omega arith) in
    let runs = get-searches v q f cnt i s b u some flips in
    elim r [
      | inl (g, fills) ↦
          let below = g.below in
          let lt : i < m.bit_cnt = ground arith in
          let at = page_at (pool x s) i in
          let found =
            deliver-found f x cnt i (with_map x b s) at (base-with_map x b s i) (ground arith)
              (omega arith) (ground arith) in
          inl (i, b, (g, fills, runs ∙ found))
      | inr (e, none, same) ↦ inr (
        none,
        runs
            ∙ ap₂ (λ j c. deliver f x cnt j (with_map x c s)) e same
            ∙ ap (deliver f x cnt bitmap_error) (with_map_self x s)
            ∙ deliver-none f x cnt s,
      )
    ]
