-- ===== src/Tests/Spawn.antt =====
-- Tests of `thread_create`: the running thread of the tests of `thread_yield` makes one of priority 2.
use cau_assignments.Base.{refl, [], ◌∷◌, arith, ◌==◌, if◌then◌else◌}
use cau_assignments.KernelList.Memory.{null}
use cau_assignments.KernelList.Family.{Lists}
use cau_assignments.Threads.View.{lists}
use cau_assignments.Threads.Synch.{lock_sema, waiters}
use cau_assignments.Threads.Create.{Loaded, Linked}
use cau_assignments.Threads.Born.{with_empty}
use cau_assignments.Threads.Spawn.{Spawns, Spawned, thread_create_lem}
use cau_assignments.Tests.Sample.{memory, family_test-Family}
use cau_assignments.Tests.Scheduler.{v}
use cau_assignments.Tests.Yield.{q, k}

abbrev pub at : Linked
at = record { tid_lock = 0x80; kernel_thread = 0xc001; switch_entry = 0xc002 }

abbrev pub before : Lists
before = with_empty (waiters (lock_sema 0x80)) (lists v q)

abbrev pub s : Loaded
s = record {
  machine = record {
    kernel = record k { mem = memory before };
    value = λ p. if p == lock_sema 0x80 then 1 else 0;
    holder = λ p. null;
  };
  word = λ p. 0;
}

s-Spawns : Spawns v at s q 0x7000
s-Spawns = record {
  family = family_test-Family s.machine.kernel.mem before refl;
  free_elem = refl;
  free_allelem = refl;
  page = refl;
  fits = omega arith;
  other = refl;
  caller = record { thread = refl; runs = refl; intr = refl };
  no_handler = refl;
  lock = refl;
  unheld = refl;
  available = refl;
}

thread_create_lem_example : Spawned v at s q 0x7000 (105 ∷ 100 ∷ []) 2 0xd001 0xe001
thread_create_lem_example =
    thread_create_lem v at s q 0x7000 (105 ∷ 100 ∷ []) 2 0xd001 0xe001 s-Spawns (omega arith) refl
