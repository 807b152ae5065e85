-- ===== src/Intq/Wait.antt =====
-- A thread that reads from an empty interrupt queue waits, and the next byte wakes it.
use cau_assignments.Base.{
  ℕ, ◌<◌, ◌≡◌, refl, true, false, List, [], ◌∷◌, ◌++◌, ◌==◌, arith, length, ◌∙◌,
}
use cau_assignments.Base.Run.{ok}
use cau_assignments.KernelList.Memory.{Ptr, null, Mem}
use cau_assignments.Threads.State.{Status, Statics, Kernel, is_blocked, set_status}
use cau_assignments.Threads.Ops.{is_thread, thread_current}
use cau_assignments.Threads.Schedule.{thread_block, thread_unblock}
use cau_assignments.Threads.Synch.{Machine, Down, lock_sema, lock_acquire}
use cau_assignments.Threads.Acquire.{locked, lock_acquire-free}
use cau_assignments.Threads.Locks.{InThread, current_lem}
use cau_assignments.Threads.View.{Queues, Holds, pick, Unlisted, append_level}
use cau_assignments.Threads.Unblock.{thread_unblock_lem}
use cau_assignments.Threads.Switch.{dispatched, thread_block_lem}
use cau_assignments.Intq.Ops.{
  System, Outcome, is_empty, is_full, intq_empty, intq_full, wait, signal, acquire_and_wait,
  getc_loop, putc_loop, intq_getc, intq_putc,
}
use cau_assignments.Intq.Ring.{Contains, Contains-is_empty, Contains-is_full, Contains-put, put}

getc-runs :
    (v : Statics) (l : Ptr) (s : System) (w' : Machine) (k' : Kernel)
    → s.machine.kernel.intr_on ≡ false
    → s.machine.kernel.in_external_intr ≡ false
    → is_empty s.queue ≡ true
    → lock_acquire v l s.machine ≡ ok Down.got w'
    → w'.kernel ≡ s.machine.kernel
    → thread_current s.machine.kernel ≡ ok s.machine.kernel.current s.machine.kernel
    → thread_block v s.machine.kernel ≡ ok tt k'
    → intq_getc v l s
      ≡ ok Outcome.in_wait (record {
        machine = record w' { kernel = k' };
        queue = record s.queue { not_empty = s.machine.kernel.current };
      })
unfolding intq_getc getc_loop intq_empty acquire_and_wait wait
getc-runs v l s w' k' off handler empty locks same cur blocks =
    ground (arith, off, handler, empty, locks, same, cur, blocks)

-- The system in which the reader waits and the thread that was chosen runs.
abbrev pub asleep : Ptr → System → Queues → Mem → System
asleep l s q m =
    let k = s.machine.kernel in
    record {
      machine = record (locked l s.machine) {
        kernel =
            dispatched (pick q k.idle_thread).0
              (record (set_status k.current Status.blocked k) { mem = m });
      };
      queue = record s.queue { not_empty = k.current };
    }

-- In a running thread, with interrupts off, the queue empty and its lock free, `intq_getc` takes the
-- lock, notes the thread as the one that waits for data and blocks it; the thread that the scheduler
-- chooses, which is to be a thread, runs, off its queue. Nothing else changes.
pub intq_getc-in_wait :
    (v : Statics) (l : Ptr) (s : System) (q : Queues)
    → Holds v q s.machine.kernel.mem
    → InThread s.machine
    → s.machine.kernel.in_external_intr ≡ false
    → s.machine.kernel.intr_on ≡ false
    → (l == null) ≡ false
    → s.machine.holder l ≡ null
    → s.machine.value (lock_sema l) ≡ 1
    → Contains s.queue []
    → is_thread s.machine.kernel (pick q s.machine.kernel.idle_thread).0 ≡ true
    → (m : Mem) × (intq_getc v l s ≡ ok Outcome.in_wait (asleep l s q m))
      × Holds v (pick q s.machine.kernel.idle_thread).1 m
intq_getc-in_wait v l s q h i handler off real free one none next =
    let t = i.thread in
    let (m, blocks, h') =
      thread_block_lem v s.machine.kernel q h i.thread i.runs handler off next in
    let locks = lock_acquire-free v s.machine l i handler real (ground (arith, free, t)) one in
    (
      m,
      getc-runs v l s (locked l s.machine) _ off handler (Contains-is_empty s.queue [] none) locks
          refl (current_lem s.machine i) blocks,
      h',
    )

putc-runs :
    (v : Statics) (l : Ptr) (s : System) (b : ℕ) (k' : Kernel)
    → s.machine.kernel.intr_on ≡ false
    → is_full s.queue ≡ false
    → (s.queue.not_empty == null) ≡ false
    → thread_unblock v s.queue.not_empty s.machine.kernel ≡ ok tt k'
    → intq_putc v l b s
      ≡ ok (Outcome.done tt) (record {
        machine = record s.machine { kernel = k' };
        queue = record (put b s.queue) { not_empty = null };
      })
unfolding intq_putc putc_loop intq_full signal
putc-runs v l s b k' off space reader wakes = ground (arith, off, space, reader, wakes)

-- The system in which the reader `t` has been made ready and the byte stands in the queue.
abbrev pub awake : Ptr → ℕ → System → Mem → System
awake t b s m = record {
  machine = record s.machine {
    kernel = set_status t Status.ready (record s.machine.kernel { mem = m });
  };
  queue = record (put b s.queue) { not_empty = null };
}

-- With interrupts off and a blocked thread of one of the four levels, on no list, waiting for data in
-- a queue that is not full, `intq_putc` appends the byte, makes the thread ready at the end of the
-- feedback queue of its priority, and notes that no thread waits for data. Nothing else changes.
pub intq_putc-awake :
    (v : Statics) (l : Ptr) (s : System) (q : Queues) (xs : List ℕ) (b : ℕ)
    → let k = s.machine.kernel in
      let t = s.queue.not_empty in
      Holds v q k.mem
      → k.intr_on ≡ false
      → Contains s.queue xs
      → length xs < 63
      → Unlisted v q t
      → is_thread k t ≡ true
      → is_blocked (k.threads t).status ≡ true
      → (k.threads t).priority < 4
      → (m : Mem) × (intq_putc v l b s ≡ ok (Outcome.done tt) (awake t b s m))
        × Holds v (append_level (k.threads t).priority t q) m
        × Contains (awake t b s m).queue (xs ++ b ∷ [])
intq_putc-awake v l s q xs b h off c space out real blocked lt =
    let k = s.machine.kernel in
    let not_full : is_full s.queue ≡ false = Contains-is_full s.queue xs c ∙ ground arith in
    let (m, wakes, h', same) =
      thread_unblock_lem v k q s.queue.not_empty h out real blocked lt (ground (arith, off)) in
    let c' = Contains-put s.queue xs b c not_full in
    (
      m,
      putc-runs v l s b _ off not_full (ground (arith, real)) wakes,
      h',
      record { head_lt = c'.head_lt; tail_lt = c'.tail_lt; content = c'.content },
    )
