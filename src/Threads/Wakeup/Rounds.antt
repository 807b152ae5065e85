-- ===== src/Threads/Wakeup/Rounds.antt =====
-- One round of the loop of `thread_wakeup`, and what the rounds leave of the kernel.
use cau_assignments.Base.{
  ℕ, suc, ◌<◌, ◌≡◌, refl, Bool, true, false, List, [], ◌∷◌, ◌++◌, map, append-nil, arith, has, ◌==◌,
  if◌then◌else◌, subst, sym,
}
use cau_assignments.Base.Run.{ok}
use cau_assignments.Base.Words.{le_int64, gt_int64}
use cau_assignments.KernelList.Memory.{Ptr, Mem}
use cau_assignments.KernelList.Ops.{list_remove, list_next, list_end}
use cau_assignments.KernelList.Family.{Lists}
use cau_assignments.Threads.State.{
  Status, is_blocked, Statics, Kernel, elem, elem_entry, allelem, set_status,
}
use cau_assignments.Threads.Ops.{is_thread}
use cau_assignments.Threads.Schedule.{thread_unblock}
use cau_assignments.Threads.Sleep.{update_next_tick_to_wakeup, wakeup_loop}
use cau_assignments.Threads.View.{Queues, Holds, append_level}
use cau_assignments.Threads.Wakeup.Spec.{with_sleeping, wake, next_tick, keep, wake-due, wake-later}

-- The lists in front of the sleeping threads, and behind them.
abbrev pub front : Statics → Queues → Lists
front v q =
    (v.fq0, map elem q.fq0)
    ∷ (v.fq1, map elem q.fq1)
    ∷ (v.fq2, map elem q.fq2)
    ∷ (v.fq3, map elem q.fq3)
    ∷ []

abbrev pub back : Statics → Queues → Lists
back v q = (v.all_list, map allelem q.all) ∷ []

-- The threads of a list are blocked, with these ticks and priorities.
abbrev pub Sleepers : Kernel → (Ptr → ℕ) → (Ptr → ℕ) → List Ptr → Type 0
Sleepers k tick prio [] = Unit {0}
Sleepers k tick prio (t ∷ ts) =
    (is_thread k t ≡ true)
    × (is_blocked (k.threads t).status ≡ true)
    × ((k.threads t).wakeup_tick ≡ tick t)
    × ((k.threads t).priority ≡ prio t)
    × (prio t < 4)
    × Sleepers k tick prio ts

pub Sleepers-frame :
    (k k' : Kernel) (tick prio : Ptr → ℕ) (ts : List Ptr)
    → Sleepers k tick prio ts
    → ((p : Ptr) → has p ts ≡ true → k'.threads p ≡ k.threads p)
    → Sleepers k' tick prio ts
Sleepers-frame k k' tick prio [] s same = tt
Sleepers-frame k k' tick prio (t ∷ ts) s same = (
  ground (arith, same t),
  ground (arith, same t),
  ground (arith, same t),
  ground (arith, same t),
  s.4,
  Sleepers-frame k k' tick prio ts s.5 (λ p h. same p (ground arith)),
)

pub has-map-elem : (t : Ptr) (ts : List Ptr) → has (elem t) (map elem ts) ≡ has t ts
has-map-elem t [] = refl
has-map-elem t (x ∷ ts) = ground (arith, has-map-elem t ts)

-- One round of the loop.
module _ (v : Statics) (n now : ℕ) (k : Kernel) (e t l e' : Ptr) (at : elem_entry e ≡ t)
    (end : list_end v.sleep_list k.mem ≡ ok l k.mem) (more : (e == l) ≡ false) where
  pub round_due :
      {m : Mem} {k' : Kernel}
      → le_int64 (k.threads t).wakeup_tick now ≡ true
      → list_remove (elem t) k.mem ≡ ok e' m
      → thread_unblock v t (record k { mem = m }) ≡ ok tt k'
      → wakeup_loop v (suc n) now e k ≡ wakeup_loop v n now e' k'
  unfolding wakeup_loop
  round_due due removed woken = ground (arith, end, removed, woken)

  pub round_later :
      (w : ℕ)
      → (k.threads t).wakeup_tick ≡ w
      → le_int64 w now ≡ false
      → list_next e k.mem ≡ ok e' k.mem
      → wakeup_loop v (suc n) now e k
        ≡ wakeup_loop v n now e' (record k {
          next_tick_to_wakeup =
              if gt_int64 k.next_tick_to_wakeup w then w else k.next_tick_to_wakeup;
        })
  unfolding wakeup_loop update_next_tick_to_wakeup
  round_later w at_tick due next = ground (arith, end, next)

pub round_end :
    (v : Statics) (n now : ℕ) (k : Kernel) (e : Ptr)
    → list_end v.sleep_list k.mem ≡ ok e k.mem
    → wakeup_loop v (suc n) now e k ≡ ok tt k
unfolding wakeup_loop
round_end v n now k e end = ground (arith, end)

-- What the loop leaves of the kernel `k`.
pub record Woke (v : Statics) (due : Ptr → Bool) (tick prio : Ptr → ℕ) (done todo : List Ptr)
    (q : Queues) (k k' : Kernel) : Type 0 where
  pub holds : Holds v (wake due prio done todo q) k'.mem
  pub next : k'.next_tick_to_wakeup ≡ next_tick due tick k.next_tick_to_wakeup todo
  pub woken :
      (p : Ptr)
      → k'.threads p ≡ (
          if has p (keep due todo)
          then record (k.threads p) { status = Status.ready }
          else k.threads p)
  pub rest : k' ≡ record k {
    mem = k'.mem;
    threads = k'.threads;
    next_tick_to_wakeup = k'.next_tick_to_wakeup;
  }

module _ (v : Statics) (due : Ptr → Bool) (tick prio : Ptr → ℕ) (done : List Ptr) (t : Ptr)
    (todo : List Ptr) (q : Queues) (k k' : Kernel) where
  pub Woke-due :
      (m : Mem)
      → due t ≡ true
      → Woke v due tick prio done todo
          (append_level (prio t) t q)
          (set_status t Status.ready (record k { mem = m }))
          k'
      → Woke v due tick prio done (t ∷ todo) q k k'
  unfolding next_tick keep
  Woke-due m d w = record {
    holds = subst (λ r. Holds v r k'.mem) (sym (wake-due due prio done t todo q d)) w.holds;
    next = rw d w.next;
    woken = λ p. ground (arith, w.woken p);
    rest = w.rest;
  }

  pub Woke-later :
      due t ≡ false
      → Woke v due tick prio
          (done ++ t ∷ [])
          todo
          q
          (record k {
            next_tick_to_wakeup =
                if gt_int64 k.next_tick_to_wakeup (tick t) then tick t else k.next_tick_to_wakeup;
          })
          k'
      → Woke v due tick prio done (t ∷ todo) q k k'
  unfolding next_tick keep
  Woke-later d w = record {
    holds = subst (λ r. Holds v r k'.mem) (sym (wake-later due prio done t todo q d)) w.holds;
    next = rw d w.next;
    woken = λ p. ground (arith, w.woken p);
    rest = w.rest;
  }

  pub Woke-nil : Holds v (with_sleeping (done ++ []) q) k.mem → Woke v due tick prio done [] q k k
  unfolding wake next_tick keep
  Woke-nil h = record {
    holds = subst (λ zs. Holds v (with_sleeping zs q) k.mem) (append-nil done) h;
    next = refl;
    woken = λ p. refl;
    rest = refl;
  }
