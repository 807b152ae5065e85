-- ===== src/Threads/Acquire.antt =====
-- `lock_acquire` of a free lock (threads/synch.c).
use cau_assignments.Base.{◌+◌, ◌%◌, ◌^◌, ◌≡◌, false, true, ◌==◌, arith, [], ◌∷◌, ◌∙◌, ap, fun_ext}
use cau_assignments.Base.Run.{ok}
use cau_assignments.KernelList.Memory.{Ptr, null}
use cau_assignments.Threads.State.{Statics}
use cau_assignments.Threads.Ops.{intr_disable, intr_set_level}
use cau_assignments.Threads.Synch.{
  Machine, Down, set_value, set_lock_holder, lock_sema, waiters, lock_acquire, lock_release,
  lock_held_by_current_thread, sema_down, down_loop,
}
use cau_assignments.Threads.Locks.{InThread, held_lem, current_lem, release-runs}
use cau_assignments.Threads.Semaphore.{sema_up_lem-empty}
use cau_assignments.Threads.View.{Queues, lists}
use cau_assignments.KernelList.Family.{Family}

-- The machine in which the running thread has taken the lock.
abbrev pub locked : Ptr → Machine → Machine
locked l w = set_lock_holder l w.kernel.current (set_value (lock_sema l) 0 w)

sema_down-free :
    (v : Statics) (w : Machine) (s : Ptr)
    → (s == null) ≡ false
    → w.kernel.in_external_intr ≡ false
    → w.value s ≡ 1
    → sema_down v s w ≡ ok Down.got (set_value s 0 w)
unfolding sema_down down_loop intr_disable intr_set_level
sema_down-free v w s real handler one = ground (arith, handler, one)

pub lock_acquire-free :
    (v : Statics) (w : Machine) (l : Ptr)
    → InThread w
    → w.kernel.in_external_intr ≡ false
    → (l == null) ≡ false
    → (w.holder l == w.kernel.current) ≡ false
    → w.value (lock_sema l) ≡ 1
    → lock_acquire v l w ≡ ok Down.got (locked l w)
unfolding lock_acquire
lock_acquire-free v w l i handler real free one =
    let down = sema_down-free v w (lock_sema l) (ground arith) handler one in
    let held = held_lem w l i real in
    let cur =
      current_lem (set_value (lock_sema l) 0 w)
        (record { thread = i.thread; runs = i.runs; intr = i.intr }) in
    ground (arith, handler, free, down, held, cur)

-- Given back, the lock leaves the machine as it was.
pub lock_release-locked :
    (v : Statics) (w : Machine) (q : Queues) (l : Ptr)
    → InThread w
    → (l == null) ≡ false
    → Family w.kernel.mem ((waiters (lock_sema l), []) ∷ lists v q)
    → w.holder l ≡ null
    → w.value (lock_sema l) ≡ 1
    → lock_release v l (locked l w) ≡ ok tt w
lock_release-locked v w q l i real f free one =
    let taken = locked l w in
    let i' : InThread taken = record { thread = i.thread; runs = i.runs; intr = i.intr } in
    let held : lock_held_by_current_thread l taken ≡ ok true taken =
      held_lem taken l i' real ∙ ap (λ b. ok b taken) (ground arith) in
    let given = set_lock_holder l null taken in
    let values : (set_value (lock_sema l) ((given.value (lock_sema l) + 1) % 2 ^ 32) given).value
        ≡ w.value =
      fun_ext (λ p. ground (arith, one)) in
    let holders : given.holder ≡ w.holder = fun_ext (λ p. ground (arith, free)) in
    let back : set_value (lock_sema l) ((given.value (lock_sema l) + 1) % 2 ^ 32) given ≡ w =
      λ j. record { kernel = w.kernel; value = values j; holder = holders j } in
    release-runs v taken _ l real held
      (sema_up_lem-empty v given q (lock_sema l) f (ground arith) i.intr)
    ∙ ap (ok tt) back
