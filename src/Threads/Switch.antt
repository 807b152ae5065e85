-- ===== src/Threads/Switch.antt =====
-- `schedule` and `thread_block` of threads/thread.c.
use cau_assignments.Base.{◌≡◌, true, false, ◌==◌, refl, arith, inl, inr, Bool-cases}
use cau_assignments.Base.Run.{ok}
use cau_assignments.KernelList.Memory.{Ptr, Mem}
use cau_assignments.Threads.State.{Statics, Status, Kernel, is_running, is_dying, set_status}
use cau_assignments.Threads.Ops.{is_thread, thread_current}
use cau_assignments.Threads.Queues.{next_thread_to_run}
use cau_assignments.Threads.Schedule.{thread_schedule_tail, schedule, thread_block}
use cau_assignments.Threads.View.{Queues, Holds, pick}
use cau_assignments.Threads.Next.{next_thread_to_run_lem}

-- The kernel in which `next` has just begun to run.
abbrev pub dispatched : Ptr → Kernel → Kernel
dispatched next k = record (set_status next Status.running k) { current = next; thread_ticks = 0 }

pub schedule-runs :
    (v : Statics) (k k1 : Kernel) (next : Ptr)
    → next_thread_to_run v k ≡ ok next k1
    → k1.current ≡ k.current
    → k1.intr_on ≡ false
    → is_running (k1.threads k.current).status ≡ false
    → is_dying (k1.threads k.current).status ≡ false
    → is_thread k1 next ≡ true
    → schedule v k ≡ ok tt (dispatched next k1)
unfolding schedule thread_schedule_tail
schedule-runs v k k1 next picks same off stopped alive real =
    elim (Bool-cases (k.current == next)) [
      | inl e ↦ ground (arith, picks, same, off, stopped, alive, real)
      | inr e ↦ ground (arith, picks, same, off, stopped, alive, real)
    ]

block-runs :
    (v : Statics) (k k' : Kernel)
    → is_thread k k.current ≡ true
    → is_running (k.threads k.current).status ≡ true
    → k.in_external_intr ≡ false
    → k.intr_on ≡ false
    → schedule v (set_status k.current Status.blocked k) ≡ ok tt k'
    → thread_block v k ≡ ok tt k'
unfolding thread_block thread_current
block-runs v k k' real runs handler off next = ground (arith, real, runs, handler, off, next)

blocked-is_thread :
    (k : Kernel) (t : Ptr)
    → is_thread k t ≡ true
    → is_thread (set_status k.current Status.blocked k) t ≡ true
blocked-is_thread k t real = ground (arith, real)

-- With the queues of `q` in memory, interrupts off and no interrupt handler running, `thread_block`
-- makes the running thread a blocked one, and the thread that the scheduler chooses, which is to be
-- a thread, runs with a new time slice. Apart from this only links change, those that take it
-- off its queue.
pub thread_block_lem :
    (v : Statics) (k : Kernel) (q : Queues)
    → Holds v q k.mem
    → is_thread k k.current ≡ true
    → is_running (k.threads k.current).status ≡ true
    → k.in_external_intr ≡ false
    → k.intr_on ≡ false
    → is_thread k (pick q k.idle_thread).0 ≡ true
    → (m : Mem) × (thread_block v k
        ≡ ok tt (
            dispatched
              (pick q k.idle_thread).0
              (record (set_status k.current Status.blocked k) { mem = m })))
      × Holds v (pick q k.idle_thread).1 m
thread_block_lem v k q h real runs handler off next =
    let blocked : Kernel = set_status k.current Status.blocked k in
    let (m, picks, h') = next_thread_to_run_lem v blocked q h in
    let e = blocked-is_thread k (pick q k.idle_thread).0 next in
    (
      m,
      block-runs v k _ real runs handler off (
          schedule-runs v blocked (record blocked { mem = m }) (pick q k.idle_thread).0 picks refl
            off (ground arith) (ground arith) e),
      h',
    )
