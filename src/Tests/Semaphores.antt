-- ===== src/Tests/Semaphores.antt =====
-- Tests of semaphores and locks: a semaphore with two waiting threads, and a free lock.
use cau_assignments.Base.{◌≡◌, refl, true, false, [], ◌∷◌, arith, ◌==◌, if◌then◌else◌, map}
use cau_assignments.Base.Run.{ok}
use cau_assignments.KernelList.Memory.{null, Mem}
use cau_assignments.KernelList.Family.{Family, Lists}
use cau_assignments.Threads.State.{Status, elem, set_status}
use cau_assignments.Threads.View.{lists, append_level}
use cau_assignments.Threads.Synch.{Machine, set_value, waiters, sema_up, lock_sema}
use cau_assignments.Threads.Semaphore.{sema_up_lem}
use cau_assignments.Threads.Locks.{InThread, RoundTrip, lock_release-lock_try_acquire}
use cau_assignments.Tests.Sample.{memory, family_test-Family}
use cau_assignments.Tests.Scheduler.{v, q, kernel, thread}

-- 0x2000 and 0x7000 wait for the semaphore at 0x80.
abbrev waiting : Lists
waiting = (waiters 0x80, map elem (0x2000 ∷ 0x7000 ∷ [])) ∷ lists v q

abbrev w : Machine
w = record { kernel = kernel (memory waiting); value = λ p. 0; holder = λ p. null }

sema_up_lem_example :
    (m : Mem) × (sema_up v 0x80 w
      ≡ ok tt (
          set_value 0x80 1
            (record w { kernel = set_status 0x2000 Status.ready (record w.kernel { mem = m }) })))
    × Family m
        ((waiters 0x80, map elem (0x7000 ∷ [])) ∷ lists v (record q { fq0 = 0x1000 ∷ 0x2000 ∷ [] }))
unfolding append_level
sema_up_lem_example =
    sema_up_lem v w q 0x80 0x2000 (0x7000 ∷ []) (family_test-Family w.kernel.mem waiting refl) refl
      refl refl (omega arith) refl

-- 0x9000 runs, and the lock at 0x80 is free.
abbrev free : Lists
free = (waiters (lock_sema 0x80), []) ∷ lists v q

abbrev unlocked : Machine
unlocked =
    let k = kernel (memory free) in
    record {
      kernel = record k {
        current = 0x9000;
        threads = λ p. if p == 0x9000 then thread Status.running 0 0 else k.threads p;
        in_external_intr = false;
        intr_on = true;
      };
      value = λ p. if p == 0x84 then 1 else 0;
      holder = λ p. null;
    }

unlocked-InThread : InThread unlocked
unlocked-InThread = record { thread = refl; runs = refl; intr = refl }

lock_release-lock_try_acquire_example : RoundTrip v 0x80 unlocked
lock_release-lock_try_acquire_example =
    lock_release-lock_try_acquire v unlocked q 0x80 unlocked-InThread refl
      (family_test-Family unlocked.kernel.mem free refl) refl refl
