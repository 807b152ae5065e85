-- ===== src/Threads/Identifier.antt =====
-- `allocate_tid` of threads/thread.c, once it has the lock.
use cau_assignments.Base.{◌+◌, ◌%◌, ◌^◌, ◌≡◌, true, false, ◌==◌, arith, [], ◌∷◌, ◌∙◌, ap}
use cau_assignments.Base.Run.{ok}
use cau_assignments.KernelList.Memory.{Ptr, null}
use cau_assignments.KernelList.Family.{Family}
use cau_assignments.Threads.State.{Statics}
use cau_assignments.Threads.View.{Queues, lists}
use cau_assignments.Threads.Synch.{
  Machine, set_value, set_lock_holder, waiters, lock_sema, lock_release,
  lock_held_by_current_thread,
}
use cau_assignments.Threads.Semaphore.{sema_up_lem-empty}
use cau_assignments.Threads.Locks.{InThread, held_lem, release-runs}
use cau_assignments.Threads.Create.{Linked, take_tid}

-- The next identifier is another one.
abbrev pub counted : Machine → Machine
counted w = record w { kernel = record w.kernel { next_tid = (w.kernel.next_tid + 1) % 2 ^ 32 } }

abbrev pub released : Ptr → Machine → Machine
released l w =
    set_value (lock_sema l) ((w.value (lock_sema l) + 1) % 2 ^ 32) (set_lock_holder l null w)

take-runs :
    (v : Statics) (at : Linked) (w w' : Machine)
    → lock_release v at.tid_lock (counted w) ≡ ok tt w'
    → take_tid v at w ≡ ok w.kernel.next_tid w'
unfolding take_tid
take-runs v at w w' gives = ground (arith, gives)

pub take_tid_lem :
    (v : Statics) (at : Linked) (w : Machine) (q : Queues)
    → InThread w
    → (at.tid_lock == null) ≡ false
    → Family w.kernel.mem ((waiters (lock_sema at.tid_lock), []) ∷ lists v q)
    → w.holder at.tid_lock ≡ w.kernel.current
    → take_tid v at w ≡ ok w.kernel.next_tid (released at.tid_lock (counted w))
take_tid_lem v at w q i real f mine =
    let l = at.tid_lock in
    let i' : InThread (counted w) = record { thread = i.thread; runs = i.runs; intr = i.intr } in
    let held : lock_held_by_current_thread l (counted w) ≡ ok true (counted w) =
      held_lem (counted w) l i' real ∙ ap (λ b. ok b (counted w)) (ground (arith, mine)) in
    take-runs v at w (released l (counted w)) (
      release-runs v (counted w) _ l real held (
        sema_up_lem-empty v (set_lock_holder l null (counted w)) q (lock_sema l) f (ground arith)
          i.intr))
