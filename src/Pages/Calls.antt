-- ===== src/Pages/Calls.antt =====
-- What a call of `palloc_get_multiple` can return, whatever the state of the lock and of the scheduler.
use cau_assignments.Base.{
  ℕ, ◌<◌, ◌≡◌, refl, true, false, ◌==◌, if◌then◌else◌, Bool, arith, ◌⊎◌, inl, inr, ap, ap₂, ◌∙◌,
  sym, subst, Bool-cases,
}
use cau_assignments.Base.Run.{Run, Cmd, ok, panic, out_of_fuel, and_then, pure, ◌>>=◌, ◌>>◌}
use cau_assignments.KernelList.Memory.{null}
use cau_assignments.Threads.State.{Statics}
use cau_assignments.Threads.Synch.{Machine, Down, lock_acquire, lock_release}
use cau_assignments.Bitmap.Ops.{Bitmap, bitmap_error, bitmap_scan_and_flip}
use cau_assignments.Bitmap.Range.{Filled}
use cau_assignments.Bitmap.Scan.{FirstGroup, group_limit, bitmap_scan_and_flip_lem}
use cau_assignments.Pages.Ops.{
  Which, Memory, Flags, Got, pool, pool_of, on_machine, on_map, deliver, search_pool,
  palloc_get_multiple,
}
use cau_assignments.Pages.Take.{
  InMemory, page_at, with_map, zeroed, with_map_self, deliver-found, deliver-none,
}

-- The memory with another machine.
abbrev pub with_machine : Machine → Memory → Memory
with_machine w s = record s { machine = w }

pub pool-with_machine :
    (x : Which) (w : Machine) (s : Memory) → pool x (with_machine w s) ≡ pool x s
pool-with_machine Which.kernel w s = refl
pool-with_machine Which.user w s = refl

base-moved :
    (x : Which) (b : Bitmap) (w : Machine) (s : Memory) (i : ℕ)
    → page_at (pool x (with_machine w (with_map x b s))) i ≡ page_at (pool x s) i
base-moved Which.kernel b w s i = refl
base-moved Which.user b w s i = refl

module _ {A : Type 0} (t : Memory) (k : Memory → Run Memory A) (a : A) (s' : Memory) where
  -- A call that returns has given the lock back.
  released :
      (r : Run Machine (Unit {0}))
      → and_then
          (elim r as (λ _. Run Memory (Unit {0})) [
            | ok u w ↦ ok u (with_machine w t)
            | panic ↦ panic
            | out_of_fuel ↦ out_of_fuel
          ])
          (λ u. k)
        ≡ ok a s'
      → (w : Machine) × (k (with_machine w t) ≡ ok a s')
  released (ok u w) h = (w, h)
  released panic h = cc
  released out_of_fuel h = cc

search_pool-deliver :
    (v : Statics) (f : Flags) (x : Which) (cnt i : ℕ) (s s' : Memory) (b : Bitmap) (g : Got)
    → bitmap_scan_and_flip 0 cnt false (pool x s).used_map ≡ ok i b
    → search_pool v f x cnt s ≡ ok g s'
    → (w : Machine) × (deliver f x cnt i (with_machine w (with_map x b s)) ≡ ok g s')
unfolding search_pool
search_pool-deliver v f Which.kernel cnt i s s' b g flips runs =
    released (with_map Which.kernel b s) (deliver f Which.kernel cnt i) g s'
      (lock_release v s.kernel_pool.lock s.machine)
      (subst
        (λ r.
          (on_map Which.kernel (λ _. r) >>= λ j.
          on_machine (lock_release v s.kernel_pool.lock) >> deliver f Which.kernel cnt j)
            s
          ≡ ok g s')
        flips runs)
search_pool-deliver v f Which.user cnt i s s' b g flips runs =
    released (with_map Which.user b s) (deliver f Which.user cnt i) g s'
      (lock_release v s.user_pool.lock s.machine)
      (subst
        (λ r.
          (on_map Which.user (λ _. r) >>= λ j.
          on_machine (lock_release v s.user_pool.lock) >> deliver f Which.user cnt j)
            s
          ≡ ok g s')
        flips runs)

-- What a search that returns has come to: the first group of free pages, now in use, or none and no change
-- of the pools.
abbrev pub Searched : Flags → Which → ℕ → Memory → Memory → Got → Type 0
Searched f x cnt s s' g =
    (w : Machine) × (((i : ℕ) × (b : Bitmap) × FirstGroup (pool x s).used_map 0
          (group_limit (pool x s).used_map cnt) cnt false i
        × Filled (pool x s).used_map i cnt true b
        × (g ≡ Got.pages (page_at (pool x s) i))
        × (s' ≡ zeroed f (page_at (pool x s) i) cnt (with_machine w (with_map x b s))))
      ⊎ ((g ≡ Got.pages null) × (s' ≡ with_machine w s)))

same_result : {S A : Type 0} {a a' : A} {s s' : S} → ok a s ≡ ok a' s' → (a' ≡ a) × (s' ≡ s)
same_result h = (cc, cc)

pub search_pool-Searched :
    (v : Statics) (f : Flags) (x : Which) (cnt : ℕ) (s s' : Memory) (g : Got)
    → InMemory (pool x s)
    → (cnt == 0) ≡ false
    → search_pool v f x cnt s ≡ ok g s'
    → Searched f x cnt s s' g
search_pool-Searched v f x cnt s s' g p some_pages runs =
    let m = (pool x s).used_map in
    let room = p.room in
    let positive = p.positive in
    let (i, b, flips, r) = bitmap_scan_and_flip_lem m 0 cnt false (omega arith) (omega arith) in
    let (w, ends) = search_pool-deliver v f x cnt i s s' b g flips runs in
    elim r [
      | inl (group, fills) ↦
          let below = group.below in
          let lt : i < m.bit_cnt = ground arith in
          let at = page_at (pool x s) i in
          let found =
            deliver-found f x cnt i (with_machine w (with_map x b s)) at (base-moved x b w s i)
              (ground arith) (omega arith) (ground arith) in
          let (e, same) = same_result (sym found ∙ ends) in (w, inl (i, b, group, fills, e, same))
      | inr (e, none, same) ↦
          let told : deliver f x cnt bitmap_error (with_machine w s) ≡ ok g s' =
            ap (λ t. deliver f x cnt bitmap_error (with_machine w t)) (sym (with_map_self x s))
            ∙ ap₂ (λ j c. deliver f x cnt j (with_machine w (with_map x c s))) (sym e) (sym same)
            ∙ ends in
          elim (Bool-cases f.pal_assert) [
            | inl asked ↦
                absurd (ground (arith, deliver-none f x cnt (with_machine w s), told, asked))
            | inr unasked ↦
                let gives : deliver f x cnt bitmap_error (with_machine w s)
                    ≡ ok (Got.pages null) (with_machine w s) =
                  deliver-none f x cnt (with_machine w s)
                  ∙ ap (λ t. if t then panic else ok (Got.pages null) (with_machine w s)) unasked in
                let (e', same') = same_result (sym gives ∙ told) in (w, inr (e', same'))
          ]
    ]

-- A call that returns has searched with the lock, or waits for it.
abbrev pub Called : Statics → Flags → ℕ → Memory → Memory → Got → Type 0
Called v f cnt s s' g =
    (w : Machine) × ((search_pool v f (pool_of f) cnt (with_machine w s) ≡ ok g s')
      ⊎ ((old : Bool) × (g ≡ Got.in_lock old) × (s' ≡ with_machine w s)))

-- What follows the result of `lock_acquire`.
abbrev taken : Statics → Flags → ℕ → Run Machine Down → Cmd Memory Got
taken v f cnt r = on_machine (λ _. r) >>= λ d. elim d as (λ _. Cmd Memory Got) [
  | Down.got ↦ search_pool v f (pool_of f) cnt
  | Down.waits old ↦ pure (Got.in_lock old)
]

acquired :
    (v : Statics) (f : Flags) (cnt : ℕ) (s s' : Memory) (g : Got) (r : Run Machine Down)
    → taken v f cnt r s ≡ ok g s'
    → Called v f cnt s s' g
acquired v f cnt s s' g (ok Down.got w) h = (w, inl h)
acquired v f cnt s s' g (ok (Down.waits old) w) h =
    let (e, same) = same_result h in (w, inr (old, e, same))
acquired v f cnt s s' g panic h = cc
acquired v f cnt s s' g out_of_fuel h = cc

pub palloc_get_multiple-Called :
    (v : Statics) (f : Flags) (cnt : ℕ) (s s' : Memory) (g : Got)
    → (cnt == 0) ≡ false
    → palloc_get_multiple v f cnt s ≡ ok g s'
    → Called v f cnt s s' g
unfolding palloc_get_multiple
palloc_get_multiple-Called v f cnt s s' g some_pages runs =
    acquired v f cnt s s' g (lock_acquire v (pool (pool_of f) s).lock s.machine) (
      subst
        (λ t.
          (if t
              then pure (Got.pages null)
              else (λ z. taken v f cnt (lock_acquire v (pool (pool_of f) z).lock z.machine) z))
            s
          ≡ ok g s')
        some_pages runs)
