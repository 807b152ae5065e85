-- ===== src/Threads/Yield.antt =====
-- `thread_yield` of threads/thread.c.
use cau_assignments.Base.{
  if◌then◌else◌, ℕ, ◌<◌, ◌≡◌, refl, true, false, not, ◌&&◌, List, [], ◌==◌, map, arith, has, length,
  inl, inr, Bool-cases, ◌∙◌, ap,
}
use cau_assignments.Base.Run.{ok}
use cau_assignments.KernelList.Memory.{Ptr, Mem}
use cau_assignments.Threads.State.{
  Statics, Status, Thread, Kernel, is_running, elem, set_status, set_priority,
}
use cau_assignments.Threads.Ops.{is_thread, thread_current, intr_disable}
use cau_assignments.Threads.Queues.{thread_set_priority_lower}
use cau_assignments.Threads.Schedule.{schedule, thread_yield, list_under_priority_get_age}
use cau_assignments.Threads.View.{Queues, Holds, Unlisted, pick, append_level}
use cau_assignments.Threads.Next.{next_thread_to_run_lem}
use cau_assignments.Threads.Lower.{
  lower_level, level, level_list, LinksToFront, thread_set_priority_lower_lem,
}
use cau_assignments.Threads.Switch.{dispatched, schedule-runs}
use cau_assignments.Threads.Ages.{older, Aged, list_under_priority_get_age_lem}

-- A thread as `thread_yield` leaves it, before the next one runs.
abbrev pub left : Kernel → Queues → Ptr → Thread
left k q t =
    let p = (k.threads k.current).priority in
    if t == k.current
    then record (k.threads t) { status = Status.ready; priority = lower_level p }
    else (if not (k.current == k.idle_thread) && has t q.all then older k p t else k.threads t)

-- The queues once the running thread is back on one.
abbrev pub requeued : Kernel → Queues → Queues
requeued k q = append_level (lower_level (k.threads k.current).priority) k.current q

abbrev pub chosen : Kernel → Queues → Ptr
chosen k q = (pick (requeued k q) k.idle_thread).0

pub record Yielded (v : Statics) (k : Kernel) (q : Queues) (k' : Kernel) : Type 0 where
  pub holds : Holds v (pick (requeued k q) k.idle_thread).1 k'.mem
  pub threads :
      (t : Ptr)
      → k'.threads t
        ≡ (if t == chosen k q then record (left k q t) { status = Status.running } else left k q t)
  pub others : k' ≡ record k {
    mem = k'.mem;
    threads = k'.threads;
    current = chosen k q;
    thread_ticks = 0;
    intr_on = false;
  }

abbrev aged_threads : Kernel → Queues → List Ptr
aged_threads k q = if k.current == k.idle_thread then [] else q.all

abbrev off : Kernel → Kernel
off k = record k { intr_on = false }

yield-ages :
    (v : Statics) (fuel : ℕ) (k : Kernel) (q : Queues)
    → Holds v q k.mem
    → length q.all < fuel
    → let p = (k.threads k.current).priority in
      (k1 : Kernel) × ((if k.current == k.idle_thread
            then (λ s. ok tt s)
            else list_under_priority_get_age v fuel p)
          (off k)
        ≡ ok tt k1)
      × Aged (off k) p (aged_threads k q) k1
yield-ages v fuel k q h lt = elim (Bool-cases (k.current == k.idle_thread)) [
  | inl e ↦ rw e (off k, refl, record { others = refl; ages = λ r. refl })
  | inr e ↦ rw e (
      list_under_priority_get_age_lem v fuel (k.threads k.current).priority (off k) q.all
        h.2.2.2.2.2.0 refl lt)
]

yield-runs :
    (v : Statics) (fuel : ℕ) (k k1 k2 k4 : Kernel)
    → is_thread k k.current ≡ true
    → is_running (k.threads k.current).status ≡ true
    → k.in_external_intr ≡ false
    → (if k.current == k.idle_thread
          then (λ s. ok tt s)
          else list_under_priority_get_age v fuel (k.threads k.current).priority)
        (off k)
      ≡ ok tt k1
    → thread_set_priority_lower v k.current k1 ≡ ok tt k2
    → schedule v (set_status k.current Status.ready k2) ≡ ok tt k4
    → thread_yield v fuel k ≡ ok tt k4
unfolding thread_yield thread_current intr_disable
yield-runs v fuel k k1 k2 k4 real runs out ages lowers next =
    elim (Bool-cases (k.current == k.idle_thread)) [
      | inl e ↦ ground (arith, real, runs, out, ages, lowers, next)
      | inr e ↦ ground (arith, real, runs, out, ages, lowers, next)
    ]

-- The threads after the ageing.
abbrev AgedOnly : Kernel → Queues → (Ptr → Thread) → Type 0
AgedOnly k q f =
    (t : Ptr)
    → f t ≡ (
        if has t (aged_threads k q)
        then older (off k) (k.threads k.current).priority t
        else k.threads t)

abbrev with_threads : Kernel → (Ptr → Thread) → Kernel
with_threads k f = record (off k) { threads = f }

-- The kernel in which the thread that gives way stands on its new queue.
abbrev gone : Kernel → (Ptr → Thread) → Mem → Kernel
gone k f m = set_status k.current Status.ready (
    set_priority k.current (lower_level (k.threads k.current).priority)
      (record (with_threads k f) { mem = m }))

-- The running thread is not ready, so it does not age.
gone-left :
    (k : Kernel) (f : Ptr → Thread) (m : Mem) (q : Queues) (r : Ptr)
    → is_running (k.threads k.current).status ≡ true
    → AgedOnly k q f
    → (gone k f m).threads r ≡ left k q r
gone-left k f m q r runs a = ground (arith, runs, a r)

left-is_thread :
    (k : Kernel) (f : Ptr → Thread) (m : Mem) (q : Queues) (r : Ptr)
    → is_running (k.threads k.current).status ≡ true
    → AgedOnly k q f
    → is_thread k r ≡ true
    → is_thread (gone k f m) r ≡ true
left-is_thread k f m q r runs a real = ground (arith, runs, a r, real)

set_running :
    (f : Ptr → Thread) (next t : Ptr) (w : Thread)
    → f t ≡ w
    → (if t == next then record (f next) { status = Status.running } else f t)
      ≡ (if t == next then record w { status = Status.running } else w)
set_running f next t w e = ground (arith, e)

yield-rest :
    (v : Statics) (fuel : ℕ) (k : Kernel) (q : Queues) (f : Ptr → Thread) (m : Mem)
    → is_thread k k.current ≡ true
    → is_running (k.threads k.current).status ≡ true
    → k.in_external_intr ≡ false
    → is_thread k (chosen k q) ≡ true
    → (if k.current == k.idle_thread
          then (λ s. ok tt s)
          else list_under_priority_get_age v fuel (k.threads k.current).priority)
        (off k)
      ≡ ok tt (with_threads k f)
    → AgedOnly k q f
    → thread_set_priority_lower v k.current (with_threads k f)
      ≡ ok tt (
          set_priority k.current
            (lower_level (k.threads k.current).priority)
            (record (with_threads k f) { mem = m }))
    → Holds v (requeued k q) m
    → (k' : Kernel) × (thread_yield v fuel k ≡ ok tt k') × Yielded v k q k'
yield-rest v fuel k q f m real runs handler next ages a lowers h =
    let (m', picks, h') = next_thread_to_run_lem v (gone k f m) (requeued k q) h in
    let k1 : Kernel = record (gone k f m) { mem = m' } in
    let runs' =
      schedule-runs v (gone k f m) k1 (chosen k q) picks refl refl (ground arith) (ground arith)
        (left-is_thread k f m q (chosen k q) runs a next) in
    (
      dispatched (chosen k q) k1,
      yield-runs v fuel k (with_threads k f) _ (dispatched (chosen k q) k1) real runs handler ages
          lowers runs',
      record {
        holds = h';
        threads = λ t.
            set_running (gone k f m).threads (chosen k q) t (left k q t)
              (gone-left k f m q t runs a);
        others = refl;
      },
    )

-- Let the queues of `q` be in memory, and let the running thread, of a level from 0 to 3, be on none of
-- them, its links still leading to the front of the queue of its level if that is not the lowest. Let
-- no interrupt handler run, the fuel exceed the number of all threads, and the thread that will be
-- chosen be a thread. Then `thread_yield` runs to the switch: the running thread is put
-- at the end of the next lower queue (of the lowest one, if it is there) with that priority, every
-- waiting thread below its level ages by one unless the idle thread yields, and the first thread of
-- the highest queue that then has one runs, off its queue, with a new time slice. Apart from the
-- links, the threads, the current thread, its ticks and the interrupt flag nothing changes.
pub thread_yield_lem :
    (v : Statics) (fuel : ℕ) (k : Kernel) (q : Queues)
    → Holds v q k.mem
    → Unlisted v q k.current
    → is_thread k k.current ≡ true
    → is_running (k.threads k.current).status ≡ true
    → k.in_external_intr ≡ false
    → let p = (k.threads k.current).priority in
      p < 4
      → (p < 3 → LinksToFront k.mem (elem k.current) (level_list v p) (map elem (level q p)))
      → is_thread k (chosen k q) ≡ true
      → length q.all < fuel
      → (k' : Kernel) × (thread_yield v fuel k ≡ ok tt k') × Yielded v k q k'
thread_yield_lem v fuel k q h out real runs handler lt links next enough =
    let (k1, ages, a) = yield-ages v fuel k q h enough in
    let e : (k1.threads k.current).priority ≡ (k.threads k.current).priority =
      ground (arith, a.ages k.current) in
    let (m, lowers, h2) =
      thread_set_priority_lower_lem v (with_threads k k1.threads) q k.current
        (k.threads k.current).priority h out e lt links in
    yield-rest v fuel k q k1.threads m real runs handler next (ages ∙ ap (ok tt) a.others) a.ages
      lowers h2
