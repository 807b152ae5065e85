-- ===== src/Pages/Give.antt =====
-- Giving pages back: `palloc_free_multiple`.
use cau_assignments.Base.{
  ℕ, ◌+◌, ◌-◌, ◌*◌, ◌/◌, ◌%◌, ◌^◌, ◌<◌, ◌≤◌, ◌≡◌, refl, Bool, true, false, not, some, ◌==◌,
  if◌then◌else◌, arith, ◌∙◌,
}
use cau_assignments.Base.Run.{ok, panic}
use cau_assignments.KernelList.Memory.{Ptr, null}
use cau_assignments.Strings.Fill.{filled, memset_lem}
use cau_assignments.Bitmap.Ops.{Bitmap, bitmap_all, bitmap_set_multiple}
use cau_assignments.Bitmap.Bit.{member}
use cau_assignments.Bitmap.Range.{
  Fits, Filled, any_in, bitmap_contains_lem, bitmap_set_multiple_lem,
}
use cau_assignments.Pages.Ops.{
  Pool, Which, Memory, pool, page_from_pool, owner, release_pages, palloc_free_multiple, pg_no,
}
use cau_assignments.Pages.Take.{InMemory, page_at, with_map}

-- Both pools are in memory, and the user pool is behind the kernel pool.
pub record Separate (s : Memory) : Type 0 where
  pub kernel : InMemory s.kernel_pool
  pub user : InMemory s.user_pool
  pub behind : s.kernel_pool.base + 4096 * s.kernel_pool.used_map.bit_cnt ≤ s.user_pool.base

pub pool-InMemory : (s : Memory) (x : Which) → Separate s → InMemory (pool x s)
pool-InMemory s Which.kernel a = a.kernel
pool-InMemory s Which.user a = a.user

from_pool-true :
    (p : Pool) (i : ℕ) → InMemory p → i < p.used_map.bit_cnt → page_from_pool p (page_at p i) ≡ true
unfolding page_from_pool
from_pool-true p i m lt =
    let a = m.aligned in
    let r = m.room in
    let no : (p.base + 4096 * i) / 4096 ≡ p.base / 4096 + i = omega arith in
    let small : (p.base / 4096 + p.used_map.bit_cnt) % 2 ^ 32 ≡ p.base / 4096 + p.used_map.bit_cnt =
      omega arith in
    ground (arith, no, small)

from_pool-false :
    (p : Pool) (a : Ptr)
    → InMemory p
    → p.base + 4096 * p.used_map.bit_cnt ≤ a
    → page_from_pool p a ≡ false
unfolding page_from_pool
from_pool-false p a m le =
    let al = m.aligned in
    let r = m.room in
    let no : p.base / 4096 + p.used_map.bit_cnt ≤ a / 4096 = omega arith in
    let small : (p.base / 4096 + p.used_map.bit_cnt) % 2 ^ 32 ≡ p.base / 4096 + p.used_map.bit_cnt =
      omega arith in
    ground (arith, no, small)

pub owner_lem :
    (s : Memory) (x : Which) (i : ℕ)
    → Separate s
    → i < (pool x s).used_map.bit_cnt
    → owner (page_at (pool x s) i) s ≡ some x
unfolding owner
owner_lem s Which.kernel i a lt = rw (from_pool-true s.kernel_pool i a.kernel lt) refl
owner_lem s Which.user i a lt =
    let b = a.behind in
    rw
      (
        from_pool-false s.kernel_pool (page_at s.user_pool i) a.kernel (omega arith),
        from_pool-true s.user_pool i a.user lt,
      )
      refl

release-runs :
    (x : Which) (p : Ptr) (cnt i : ℕ) (used : Bool) (s : Memory)
    → pg_no p - pg_no (pool x s).base ≡ i
    → (p == null) ≡ false
    → bitmap_all i cnt (pool x s).used_map ≡ ok used (pool x s).used_map
    → (b : Bitmap) → bitmap_set_multiple i cnt false (pool x s).used_map ≡ ok tt b
    → release_pages p cnt x s ≡ (
        if used
        then ok tt (record (with_map x b s) { bytes = filled p 0xcc (4096 * cnt) s.bytes })
        else panic)
unfolding release_pages
release-runs Which.kernel p cnt i used s e real alls b sets =
    ground (arith, e, real, alls, sets, memset_lem p 0xcc (4096 * cnt) s.bytes (ground arith))
release-runs Which.user p cnt i used s e real alls b sets =
    ground (arith, e, real, alls, sets, memset_lem p 0xcc (4096 * cnt) s.bytes (ground arith))

free-runs :
    (x : Which) (p : Ptr) (cnt : ℕ) (s : Memory)
    → p % 4096 ≡ 0
    → (p == null) ≡ false
    → (cnt == 0) ≡ false
    → owner p s ≡ some x
    → palloc_free_multiple p cnt s ≡ release_pages p cnt x s
unfolding palloc_free_multiple
free-runs x p cnt s whole real some_pages own = ground (arith, whole, real, some_pages, own)

all_lem :
    (b : Bitmap) (i cnt : ℕ)
    → Fits b i cnt
    → bitmap_all i cnt b ≡ ok (not (any_in (member b) i cnt false)) b
unfolding bitmap_all
all_lem b i cnt f = ground (arith, bitmap_contains_lem b i cnt false f)

-- The pages `i` to `i + cnt` of a pool, of which there are some. `palloc_free_multiple` panics if one of
-- them is free already. Else it marks them, and no others, as free, and fills them with 0xcc.
pub palloc_free_multiple_lem :
    (s : Memory) (x : Which) (i cnt : ℕ)
    → Separate s
    → (cnt == 0) ≡ false
    → i + cnt ≤ (pool x s).used_map.bit_cnt
    → let m = (pool x s).used_map in
      let p = page_at (pool x s) i in
      (b : Bitmap) × Filled m i cnt false b
      × (palloc_free_multiple p cnt s ≡ (
          if not (any_in (member m) i cnt false)
          then ok tt (record (with_map x b s) { bytes = filled p 0xcc (4096 * cnt) s.bytes })
          else panic))
palloc_free_multiple_lem s x i cnt a some_pages fits =
    let m = (pool x s).used_map in
    let p = page_at (pool x s) i in
    let mem = pool-InMemory s x a in
    let al = mem.aligned in
    let r = mem.room in
    let pos = mem.positive in
    let f : Fits m i cnt = record { inside = fits; size = omega arith } in
    let (b, sets, fills) = bitmap_set_multiple_lem m i cnt false f in
    let frees =
      free-runs x p cnt s (omega arith) (ground arith) some_pages
        (owner_lem s x i a (ground arith)) in
    (
      b,
      fills,
      frees
          ∙ release-runs x p cnt i (not (any_in (member m) i cnt false)) s (omega arith)
              (ground arith) (all_lem m i cnt f) b sets,
    )
