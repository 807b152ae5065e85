-- ===== src/Tests/Scheduler.antt =====
-- Tests of the scheduler, at a kernel with a ready thread, a blocked one and two that sleep.
use cau_assignments.Base.{ℕ, ◌≡◌, refl, true, false, [], ◌∷◌, arith, has, ◌==◌, if◌then◌else◌}
use cau_assignments.Base.Run.{ok}
use cau_assignments.KernelList.Memory.{Ptr, Mem, with_prev, with_next}
use cau_assignments.KernelList.Ops.{tail}
use cau_assignments.KernelList.Lists.{SameOutside}
use cau_assignments.KernelList.Family.{all_nodes}
use cau_assignments.Threads.State.{
  Status, Statics, Thread, Kernel, elem, set_status, set_priority, thread_magic,
}
use cau_assignments.Threads.Queues.{next_thread_to_run, thread_set_priority_lower}
use cau_assignments.Threads.Schedule.{thread_unblock}
use cau_assignments.Threads.Sleep.{thread_wakeup}
use cau_assignments.Threads.View.{Queues, lists, Holds, pick, append_level}
use cau_assignments.Threads.Next.{next_thread_to_run_lem}
use cau_assignments.Threads.Unblock.{thread_unblock_lem}
use cau_assignments.Threads.Wakeup.{thread_wakeup_lem}
use cau_assignments.Threads.Wakeup.Spec.{keep, woken_queues, next_tick}
use cau_assignments.Threads.Lower.{thread_set_priority_lower_lem}
use cau_assignments.Threads.Lost.{Dropped, lost_thread}
use cau_assignments.Tests.Sample.{memory, family_test-Family}

abbrev pub v : Statics
v = record { fq0 = 0x10; fq1 = 0x20; fq2 = 0x30; fq3 = 0x40; all_list = 0x50; sleep_list = 0x60 }

-- A thread of `priority` that wakes up at `tick`.
abbrev pub thread : Status → ℕ → ℕ → Thread
thread s p tick = record {
  tid = 1;
  status = s;
  name = [];
  stack = 0;
  priority = p;
  age = 0;
  wakeup_tick = tick;
  magic = thread_magic;
}

abbrev pub q : Queues
q = record {
  fq0 = 0x1000 ∷ [];
  fq1 = [];
  fq2 = [];
  fq3 = [];
  sleeping = 0x3000 ∷ 0x4000 ∷ [];
  all = 0x1000 ∷ [];
}

abbrev pub kernel : Mem → Kernel
kernel m = record {
  mem = m;
  threads = λ p.
      if p == 0x3000
      then thread Status.blocked 1 50
      else (if p == 0x4000
          then thread Status.blocked 0 10
          else (if p == 0x2000 then thread Status.blocked 0 0 else thread Status.ready 0 0));
  current = 0x2000;
  idle_thread = 0x5000;
  initial_thread = 0x6000;
  next_tick_to_wakeup = 10;
  idle_ticks = 0;
  kernel_ticks = 0;
  thread_ticks = 0;
  next_tid = 7;
  ticks = 20;
  intr_on = false;
  in_external_intr = true;
  yield_on_return = false;
  freed = [];
}

abbrev k : Kernel
k = kernel (memory (lists v q))

k-Holds : Holds v q k.mem
k-Holds = family_test-Family k.mem (lists v q) refl

-- The first thread runs: it is off its queue, and its links are those it had there.
abbrev idle_q : Queues
idle_q = record q { fq0 = [] }

abbrev running : Kernel
running =
    kernel
      (with_prev (with_next (memory (lists v idle_q)) (elem 0x1000) (tail 0x10)) (elem 0x1000) 0x10)

running-Holds : Holds v idle_q running.mem
running-Holds = family_test-Family running.mem (lists v idle_q) refl

thread_set_priority_lower_lem_example :
    (m : Mem) × (thread_set_priority_lower v 0x1000 running
      ≡ ok tt (set_priority 0x1000 1 (record running { mem = m })))
    × Holds v (record idle_q { fq1 = 0x1000 ∷ [] }) m
unfolding append_level
thread_set_priority_lower_lem_example =
    thread_set_priority_lower_lem v running idle_q 0x1000 0 running-Holds refl refl (omega arith)
      (λ lt. (refl, refl))

next_thread_to_run_lem_example :
    (m : Mem) × (next_thread_to_run v k ≡ ok 0x1000 (record k { mem = m }))
    × Holds v (record q { fq0 = [] }) m
unfolding pick
next_thread_to_run_lem_example = next_thread_to_run_lem v k q k-Holds

thread_unblock_lem_example :
    (m : Mem) × (thread_unblock v 0x2000 k
      ≡ ok tt (set_status 0x2000 Status.ready (record k { mem = m })))
    × Holds v (record q { fq0 = 0x1000 ∷ 0x2000 ∷ [] }) m
    × SameOutside (elem 0x2000 ∷ all_nodes (lists v q)) k.mem m
unfolding append_level
thread_unblock_lem_example =
    thread_unblock_lem v k q 0x2000 k-Holds refl refl refl (omega arith) refl

lost_thread_example : Dropped v k q 0x1000 0x2000
lost_thread_example = lost_thread v k q 0x1000 0x2000 k-Holds refl refl refl refl refl refl

-- At tick 20 the second sleeping thread is due, and the first one wakes up at 50.
thread_wakeup_lem_example :
    (k' : Kernel) × (thread_wakeup v 3 20 k ≡ ok tt k')
    × Holds v (record q { fq0 = 0x1000 ∷ 0x4000 ∷ []; sleeping = 0x3000 ∷ [] }) k'.mem
    × ((p : Ptr)
        → k'.threads p ≡ (
            if has p (0x4000 ∷ [])
            then record (k.threads p) { status = Status.ready }
            else k.threads p))
    × (k'.next_tick_to_wakeup ≡ 50)
    × (k' ≡ record k {
      mem = k'.mem;
      threads = k'.threads;
      next_tick_to_wakeup = k'.next_tick_to_wakeup;
    })
unfolding woken_queues keep next_tick
thread_wakeup_lem_example =
    thread_wakeup_lem v 3 20 k q k-Holds
      (refl, refl, refl, refl, omega arith, (refl, refl, refl, refl, omega arith, tt)) refl
      (omega arith)
