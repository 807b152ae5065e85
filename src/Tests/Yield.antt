-- ===== src/Tests/Yield.antt =====
-- Tests of `thread_yield`, with a running thread that was alone in the highest queue.
use cau_assignments.Base.{◌≡◌, refl, false, [], ◌∷◌, arith, ◌==◌, if◌then◌else◌}
use cau_assignments.Base.Run.{ok}
use cau_assignments.KernelList.Memory.{with_prev, with_next}
use cau_assignments.KernelList.Ops.{tail}
use cau_assignments.Threads.State.{Status, Kernel, elem}
use cau_assignments.Threads.Schedule.{thread_yield}
use cau_assignments.Threads.View.{Queues, lists, Holds, pick, append_level}
use cau_assignments.Threads.Yield.{Yielded, thread_yield_lem}
use cau_assignments.Tests.Sample.{memory, family_test-Family}
use cau_assignments.Tests.Scheduler.{v, thread, kernel}

abbrev pub q : Queues
q = record {
  fq0 = [];
  fq1 = 0x3000 ∷ [];
  fq2 = 0x4000 ∷ [];
  fq3 = [];
  sleeping = [];
  all = 0x1000 ∷ 0x3000 ∷ 0x4000 ∷ [];
}

abbrev pub k : Kernel
k =
    record (kernel
      (with_prev (with_next (memory (lists v q)) (elem 0x1000) (tail 0x10)) (elem 0x1000) 0x10)) {
        threads = λ p.
            if p == 0x1000
            then thread Status.running 0 0
            else (if p == 0x3000 then thread Status.ready 1 0 else thread Status.ready 2 0);
        current = 0x1000;
        in_external_intr = false;
      }

pub k-Holds : Holds v q k.mem
k-Holds = family_test-Family k.mem (lists v q) refl

thread_yield_lem_example : (k' : Kernel) × (thread_yield v 4 k ≡ ok tt k') × Yielded v k q k'
unfolding pick append_level
thread_yield_lem_example =
    thread_yield_lem v 4 k q k-Holds refl refl refl refl (omega arith) (λ lt. (refl, refl)) refl
      (omega arith)
