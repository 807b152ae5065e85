-- ===== src/Tests/Bytes.antt =====
-- Tests of interrupt queues, at the kernel of the tests of `thread_yield`.
use cau_assignments.Base.{refl, List, [], ◌∷◌, arith, ◌==◌, if◌then◌else◌}
use cau_assignments.KernelList.Memory.{null}
use cau_assignments.Threads.State.{Status, set_status}
use cau_assignments.Threads.Synch.{lock_sema}
use cau_assignments.Threads.Locks.{InThread}
use cau_assignments.Threads.View.{pick}
use cau_assignments.Intq.Ops.{System}
use cau_assignments.Intq.Ring.{Contains}
use cau_assignments.Intq.Refine.{Op, meant, run, Gives, run-meant}
use cau_assignments.Intq.Wakeup.{interrupted, Delivered, intq_putc-intq_getc}
use cau_assignments.Tests.Scheduler.{v}
use cau_assignments.Tests.Yield.{q, k, k-Holds}

abbrev s : System
s = record {
  machine = record {
    kernel = k;
    value = λ p. if p == lock_sema 0x80 then 1 else 0;
    holder = λ p. null;
  };
  queue = record { not_full = null; not_empty = null; buf = λ i. 0; head = 63; tail = 63 };
}

s-InThread : InThread s.machine
s-InThread = record { thread = refl; runs = refl; intr = refl }

s-Contains : Contains s.queue []
s-Contains = record { head_lt = omega arith; tail_lt = omega arith; content = refl }

-- Two bytes are put, across the end of the buffer, and three taken: the last call panics.
abbrev ops : List Op
ops = Op.put_byte 7 ∷ Op.put_byte 8 ∷ Op.get_byte ∷ Op.get_byte ∷ Op.get_byte ∷ []

run-meant_example : Gives (interrupted s).machine (meant ops []) (run v 0x80 ops (interrupted s))
run-meant_example =
    run-meant v 0x80 ops (interrupted s) []
      (record { off = refl; handler = refl; no_writer = refl; no_reader = refl }) s-Contains

-- 0x1000 waits for data.
abbrev waiting : System
waiting = record (interrupted s) {
  machine = record (interrupted s).machine {
    kernel = set_status 0x1000 Status.blocked (interrupted s).machine.kernel;
  };
  queue = record s.queue { not_empty = 0x1000 };
}

intq_putc-intq_getc_example : Delivered v 0x80 s q 9
unfolding pick
intq_putc-intq_getc_example =
    intq_putc-intq_getc v 0x80 s q 9 k-Holds s-InThread refl refl refl refl refl s-Contains refl
      refl refl (omega arith)
