-- ===== src/Pages/Start.antt =====
-- `palloc_init` sets up two pools from which nothing is handed out.
use cau_assignments.Base.{
  ℕ, ◌+◌, ◌-◌, ◌*◌, ◌/◌, ◌%◌, ◌^◌, ◌<◌, ◌≤◌, ◌≡◌, refl, false, [], some, ◌==◌, ltb, if◌then◌else◌,
  arith,
}
use cau_assignments.Base.Run.{ok}
use cau_assignments.KernelList.Memory.{Ptr, null}
use cau_assignments.KernelList.Insert.{list_init_lem}
use cau_assignments.Threads.Synch.{
  Machine, set_value, set_lock_holder, lock_init, sema_init, lock_sema, waiters,
}
use cau_assignments.Bitmap.Ops.{Bitmap, bitmap_buf_size, bitmap_create_in_buf}
use cau_assignments.Bitmap.Bit.{member}
use cau_assignments.Bitmap.Create.{bitmap_create_in_buf_lem}
use cau_assignments.Pages.Ops.{Pool, Which, Memory, pool, set_pool, init_pool, palloc_init}
use cau_assignments.Pages.Give.{Separate}
use cau_assignments.Pages.Ledger.{Sound}

lock_init_lem :
    (w : Machine) (l : Ptr) → (l == null) ≡ false → (w' : Machine) × (lock_init l w ≡ ok tt w')
unfolding lock_init sema_init
lock_init_lem w l real =
    let (m, runs, is, same) = list_init_lem w.kernel.mem (waiters (lock_sema l)) (omega arith) in
    let w' = set_value (lock_sema l) 1 (set_lock_holder l null w) in
    (record w' { kernel = record w.kernel { mem = m } }, ground (arith, runs))

-- The pages for the bitmap of a pool.
abbrev pub map_pages : ℕ → ℕ
map_pages cnt = (8 + 4 * ((cnt + 31) / 32) + 4095) / 4096

init-runs :
    (x : Which) (base cnt : ℕ) (words : ℕ → ℕ) (s : Memory) (w : Machine) (b : Bitmap)
    → cnt < 2 ^ 20
    → map_pages cnt ≤ cnt
    → base + 4096 * cnt < 2 ^ 32
    → lock_init (pool x s).lock s.machine ≡ ok tt w
    → bitmap_create_in_buf words (cnt - map_pages cnt) (map_pages cnt * 4096) ≡ some b
    → init_pool x base cnt words s
      ≡ ok tt (
          set_pool x
            (record { lock = (pool x s).lock; used_map = b; base = base + 4096 * map_pages cnt })
            (record s { machine = w }))
unfolding init_pool
init-runs Which.kernel base cnt words s w b small fits room locks makes =
    let bm : (8 + 4 * ((cnt + 32 - 1) % 2 ^ 32 / 32) + 4096 - 1) % 2 ^ 32 / 4096 ≡ map_pages cnt =
      omega arith in
    let at : (base + map_pages cnt * 4096) % 2 ^ 32 ≡ base + 4096 * map_pages cnt = omega arith in
    ground (arith, bm, at, locks, makes)
init-runs Which.user base cnt words s w b small fits room locks makes =
    let bm : (8 + 4 * ((cnt + 32 - 1) % 2 ^ 32 / 32) + 4096 - 1) % 2 ^ 32 / 4096 ≡ map_pages cnt =
      omega arith in
    let at : (base + map_pages cnt * 4096) % 2 ^ 32 ≡ base + 4096 * map_pages cnt = omega arith in
    ground (arith, bm, at, locks, makes)

-- What `init_pool` makes: a pool of which no page is in use, behind the pages of its bitmap.
init_pool_lem :
    (x : Which) (base cnt : ℕ) (words : ℕ → ℕ) (s : Memory)
    → ((pool x s).lock == null) ≡ false
    → 0 < cnt
    → cnt < 2 ^ 20
    → base + 4096 * cnt < 2 ^ 32
    → (w : Machine) × (b : Bitmap) × (b.bit_cnt ≡ cnt - map_pages cnt)
      × ((j : ℕ) → j < b.bit_cnt → member b j ≡ false)
      × (init_pool x base cnt words s
          ≡ ok tt (
              set_pool x
                (record {
                  lock = (pool x s).lock;
                  used_map = b;
                  base = base + 4096 * map_pages cnt;
                })
                (record s { machine = w })))
init_pool_lem x base cnt words s real some_pages small room =
    let (w, locks) = lock_init_lem s.machine (pool x s).lock real in
    let (b, makes, size, unused) =
      bitmap_create_in_buf_lem words (cnt - map_pages cnt) (map_pages cnt * 4096) (omega arith)
        (omega arith) in
    (
      w,
      b,
      size,
      λ j lt. unused j (omega (arith, size)),
      init-runs x base cnt words s w b small (omega arith) room locks makes,
    )

-- How `palloc_init` divides the pages.
abbrev pub user_part : ℕ → ℕ → ℕ
user_part limit free = if ltb limit (free / 2) then limit else free / 2

palloc-runs :
    (limit start end k : ℕ) (words words' : ℕ → ℕ) (s s1 s2 : Memory)
    → let free = (end - start) / 4096 in
      free - user_part limit free ≡ k
      → (start + k * 4096) % 2 ^ 32 ≡ start + 4096 * k
      → init_pool Which.kernel start k words s ≡ ok tt s1
      → init_pool Which.user (start + 4096 * k) (user_part limit free) words' s1 ≡ ok tt s2
      → palloc_init limit start end words words' s ≡ ok tt s2
unfolding palloc_init
palloc-runs limit start end k words words' s s1 s2 e at a b = ground (arith, e, at, a, b)

empty_pools :
    (s : Memory)
    → ((j : ℕ) → j < s.kernel_pool.used_map.bit_cnt → member s.kernel_pool.used_map j ≡ false)
    → ((j : ℕ) → j < s.user_pool.used_map.bit_cnt → member s.user_pool.used_map j ≡ false)
    → (x : Which) (j : ℕ) → j < (pool x s).used_map.bit_cnt
    → member (pool x s).used_map j ≡ false
empty_pools s k u Which.kernel = k
empty_pools s k u Which.user = u

fresh-Sound :
    (s : Memory)
    → Separate s
    → ((j : ℕ) → j < s.kernel_pool.used_map.bit_cnt → member s.kernel_pool.used_map j ≡ false)
    → ((j : ℕ) → j < s.user_pool.used_map.bit_cnt → member s.user_pool.used_map j ≡ false)
    → Sound s []
fresh-Sound s sep k u = record {
  separate = sep;
  exact = empty_pools s k u;
  no_overlap = tt;
  all_fit = tt;
}

-- The pool of `cnt` pages from `start` on: its bitmap has these to itself up to the base, the pages that the
-- bitmap counts are the rest, and none of them is in use.
pub record Fresh (x : Which) (start cnt : ℕ) (s s' : Memory) : Type 0 where
  pub same_lock : (pool x s').lock ≡ (pool x s).lock
  pub size : (pool x s').used_map.bit_cnt ≡ cnt - map_pages cnt
  pub base : (pool x s').base ≡ start + 4096 * map_pages cnt
  pub map_fits : start + bitmap_buf_size (pool x s').used_map.bit_cnt ≤ (pool x s').base
  pub full : (pool x s').base + 4096 * (pool x s').used_map.bit_cnt ≡ start + 4096 * cnt
  pub unused : (j : ℕ) → j < (pool x s').used_map.bit_cnt → member (pool x s').used_map j ≡ false

-- With two free pages at least, below the end of the address space, and a limit for the user pool that is
-- not 0, `palloc_init` ends. The user pool gets half of the free pages, or the limit if that is less, and
-- the kernel pool those before them. In each, the bitmap stands in front of the base and the rest of
-- the pages are counted by it; no page is in use, and the pools do not overlap.
pub palloc_init-Sound :
    (limit start end : ℕ) (words words' : ℕ → ℕ) (s : Memory)
    → (s.kernel_pool.lock == null) ≡ false
    → (s.user_pool.lock == null) ≡ false
    → 0 < limit
    → 0 < start
    → start % 4096 ≡ 0
    → start + 8192 ≤ end
    → end < 2 ^ 32
    → (s' : Memory) × (palloc_init limit start end words words' s ≡ ok tt s')
      × Sound s' []
      × (let free = (end - start) / 4096 in
          let u = user_part limit free in
          Fresh Which.kernel start (free - u) s s'
          × Fresh Which.user (start + 4096 * (free - u)) u s s')
palloc_init-Sound limit start end words words' s kernel_lock user_lock pos pos' whole room small =
    let free = (end - start) / 4096 in
    let u = user_part limit free in
    let k = free - u in
    let two : 2 ≤ free = omega arith in
    let le : u + u ≤ free = ground arith in
    let one : 0 < u = ground arith in
    let fits : start + 4096 * free ≤ end = omega arith in
    let (w1, b1, size1, unused1, runs1) =
      init_pool_lem Which.kernel start k words s kernel_lock (omega arith) (omega arith)
        (omega arith) in
    let p1 : Pool = record {
      lock = s.kernel_pool.lock;
      used_map = b1;
      base = start + 4096 * map_pages k;
    } in
    let s1 : Memory = record s { machine = w1; kernel_pool = p1 } in
    let (w2, b2, size2, unused2, runs2) =
      init_pool_lem Which.user (start + 4096 * k) u words' s1 user_lock one (omega arith)
        (omega arith) in
    let p2 : Pool = record {
      lock = s.user_pool.lock;
      used_map = b2;
      base = start + 4096 * k + 4096 * map_pages u;
    } in
    let s2 : Memory = record s1 { machine = w2; user_pool = p2 } in
    (
      s2,
      palloc-runs limit start end k words words' s s1 s2 refl (omega arith) runs1 runs2,
      fresh-Sound s2
          (record {
            kernel = record {
              aligned = omega arith;
              positive = omega arith;
              room = omega (arith, size1);
            };
            user = record {
              aligned = omega arith;
              positive = omega arith;
              room = omega (arith, size2);
            };
            behind = omega (arith, size1);
          })
          unused1 unused2,
      (
        record {
          same_lock = refl;
          size = size1;
          base = refl;
          map_fits = omega (arith, size1);
          full = omega (arith, size1);
          unused = unused1;
        },
        record {
          same_lock = refl;
          size = size2;
          base = refl;
          map_fits = omega (arith, size2);
          full = omega (arith, size2);
          unused = unused2;
        },
      ),
    )
