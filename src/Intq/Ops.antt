-- ===== src/Intq/Ops.antt =====
-- devices/intq.h and devices/intq.c, for a queue at the address `q`. A call that has to wait ends where
-- another thread is switched in, and says where it stands; `resume_getc` and `resume_putc` are what
-- it does once the thread runs again and holds the lock.
use cau_assignments.Base.{ℕ, ◌+◌, ◌%◌, Bool, not, ◌==◌, if◌then◌else◌}
use cau_assignments.Base.Run.{Cmd, ok, panic, out_of_fuel, pure, ◌>>=◌, ◌>>◌, assert, gets, modify}
use cau_assignments.KernelList.Memory.{Ptr, null}
use cau_assignments.Threads.State.{Statics}
use cau_assignments.Threads.Ops.{thread_current}
use cau_assignments.Threads.Schedule.{thread_block, thread_unblock}
use cau_assignments.Threads.Synch.{
  Machine, Down, on_kernel, lock_init, lock_acquire, lock_release, lock_sema, down_loop, acquired,
}

abbrev pub intq_bufsize : ℕ
intq_bufsize = 64

-- `struct intq` without its lock, which the machine keeps at the address of the queue. A byte of
-- `buf` is a number below 256.
pub record Intq : Type 0 where
  pub not_full : Ptr
  pub not_empty : Ptr
  pub buf : ℕ → ℕ
  pub head : ℕ
  pub tail : ℕ

pub record System : Type 0 where
  pub machine : Machine
  pub queue : Intq

-- Which of the two waiting threads a `struct thread **` points to.
pub data Waiter : Type 0 where
  for_space for_data : Waiter

abbrev pub waiter : Waiter → Intq → Ptr
waiter Waiter.for_space q = q.not_full
waiter Waiter.for_data q = q.not_empty

abbrev pub set_waiter : Waiter → Ptr → Intq → Intq
set_waiter Waiter.for_space t q = record q { not_full = t }
set_waiter Waiter.for_data t q = record q { not_empty = t }

-- A call has returned, or waits in `lock_acquire` (with the level to restore) or in `wait`.
pub data Outcome (A : Type 0) : Type 0 where
  done : A → Outcome A
  in_lock : Bool → Outcome A
  in_wait : Outcome A

abbrev pub on_machine : {A : Type 0} → Cmd Machine A → Cmd System A
on_machine c s = elim (c s.machine) [
  | ok a w ↦ ok a (record s { machine = w })
  | panic ↦ panic
  | out_of_fuel ↦ out_of_fuel
]

abbrev pub on_queue : (Intq → Intq) → Cmd System (Unit {0})
on_queue f = modify (λ s. record s { queue = f s.queue })

-- `ASSERT (intr_get_level () == INTR_OFF)` and `ASSERT (!intr_context ())`
abbrev pub intr_is_off : Cmd System (Unit {0})
intr_is_off s = assert (not s.machine.kernel.intr_on) s

abbrev pub no_intr_context : Cmd System (Unit {0})
no_intr_context s = assert (not s.machine.kernel.in_external_intr) s

abbrev pub next : ℕ → ℕ
next pos = (pos + 1) % intq_bufsize

abbrev pub is_empty : Intq → Bool
is_empty q = q.head == q.tail

abbrev pub is_full : Intq → Bool
is_full q = next q.head == q.tail

unfoldable pub intq_empty : Cmd System Bool
intq_empty = do intr_is_off; gets (λ s. is_empty s.queue)

unfoldable pub intq_full : Cmd System Bool
intq_full = do intr_is_off; gets (λ s. is_full s.queue)

-- The condition of a waiting thread holds no longer.
abbrev pub is_met : Waiter → Intq → Bool
is_met Waiter.for_space q = not (is_full q)
is_met Waiter.for_data q = not (is_empty q)

module _ (v : Statics) (l : Ptr) where
  unfoldable pub intq_init : Cmd System (Unit {0})
  intq_init = do
    on_machine (lock_init l)
    on_queue (λ q. record q { not_full = null; not_empty = null })
    on_queue (λ q. record q { head = 0; tail = 0 })

  unfoldable pub wait : Waiter → Cmd System (Unit {0})
  wait x = do
    no_intr_context
    intr_is_off
    met ← gets (λ s. is_met x s.queue)
    assert (not met)
    cur ← on_machine (on_kernel thread_current)
    on_queue (set_waiter x cur)
    on_machine (on_kernel (thread_block v))

  unfoldable pub signal : Waiter → Cmd System (Unit {0})
  signal x = do
    intr_is_off
    met ← gets (λ s. is_met x s.queue)
    assert met
    t ← gets (λ s. waiter x s.queue)
    if not (t == null)
        then (do on_machine (on_kernel (thread_unblock v t)); on_queue (set_waiter x null))
        else pure tt

  -- Behind `lock_acquire` in the loops, up to the switch.
  abbrev pub then_wait : {A : Type 0} → Waiter → Down → Cmd System (Outcome A)
  then_wait x Down.got = do wait x; pure Outcome.in_wait
  then_wait x (Down.waits old) = pure (Outcome.in_lock old)

  -- The body of the loops.
  unfoldable pub acquire_and_wait : {A : Type 0} → Waiter → Cmd System (Outcome A)
  acquire_and_wait x = do no_intr_context; r ← on_machine (lock_acquire v l); then_wait x r

  -- The same from the loop of `sema_down` on, in a thread that waited for the lock.
  unfoldable pub resume_acquire : {A : Type 0} → Waiter → Bool → Cmd System (Outcome A)
  resume_acquire x old = do
    r ← on_machine (down_loop v (lock_sema l) old)
    r' ← on_machine (acquired v l r)
    then_wait x r'

  unfoldable pub getc_loop : Cmd System (Outcome ℕ)
  getc_loop = do
    empty ← intq_empty
    if empty then acquire_and_wait Waiter.for_data else do
      byte ← gets (λ s. s.queue.buf s.queue.tail)
      on_queue (λ q. record q { tail = next q.tail })
      signal Waiter.for_space
      pure (Outcome.done byte)

  unfoldable pub intq_getc : Cmd System (Outcome ℕ)
  intq_getc = do intr_is_off; getc_loop

  unfoldable pub resume_getc : Cmd System (Outcome ℕ)
  resume_getc = do on_machine (lock_release v l); getc_loop

  unfoldable pub putc_loop : ℕ → Cmd System (Outcome (Unit {0}))
  putc_loop byte = do
    full ← intq_full
    if full then acquire_and_wait Waiter.for_space else do
      on_queue (λ q. record q { buf = λ i. if i == q.head then byte else q.buf i })
      on_queue (λ q. record q { head = next q.head })
      signal Waiter.for_data
      pure (Outcome.done tt)

  unfoldable pub intq_putc : ℕ → Cmd System (Outcome (Unit {0}))
  intq_putc byte = do intr_is_off; putc_loop byte

  unfoldable pub resume_putc : ℕ → Cmd System (Outcome (Unit {0}))
  resume_putc byte = do on_machine (lock_release v l); putc_loop byte
