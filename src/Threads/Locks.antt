-- ===== src/Threads/Locks.antt =====
-- Locks that do not have to wait (threads/synch.c).
use cau_assignments.Base.{
  ◌+◌, ◌-◌, ◌%◌, ◌^◌, ◌≡◌, refl, true, false, ◌&&◌, [], ◌∷◌, ◌==◌, arith, if◌then◌else◌,
}
use cau_assignments.Base.Run.{ok, panic}
use cau_assignments.KernelList.Memory.{Ptr, null}
use cau_assignments.KernelList.Family.{Family}
use cau_assignments.Threads.State.{Statics, is_running}
use cau_assignments.Threads.Ops.{is_thread, thread_current}
use cau_assignments.Threads.View.{Queues, lists}
use cau_assignments.Threads.Semaphore.{sema_try_down_lem, sema_up_lem-empty}
use cau_assignments.Threads.Synch.{
  Machine, set_value, set_lock_holder, waiters, lock_sema, sema_try_down, sema_up, lock_try_acquire,
  lock_release, lock_held_by_current_thread,
}

-- The running thread may use locks here.
pub record InThread (w : Machine) : Type 0 where
  pub thread : is_thread w.kernel w.kernel.current ≡ true
  pub runs : is_running (w.kernel.threads w.kernel.current).status ≡ true
  pub intr : (w.kernel.in_external_intr && w.kernel.intr_on) ≡ false

pub held_lem :
    (w : Machine) (l : Ptr)
    → InThread w
    → (l == null) ≡ false
    → lock_held_by_current_thread l w ≡ ok (w.holder l == w.kernel.current) w
unfolding lock_held_by_current_thread thread_current
held_lem w l i real = let t = i.thread in let r = i.runs in ground arith

pub current_lem :
    (w : Machine) → InThread w → thread_current w.kernel ≡ ok w.kernel.current w.kernel
unfolding thread_current
current_lem w i = let t = i.thread in let r = i.runs in ground arith

acquire-runs :
    (w : Machine) (l : Ptr)
    → (l == null) ≡ false
    → lock_held_by_current_thread l w ≡ ok (w.holder l == w.kernel.current) w
    → thread_current w.kernel ≡ ok w.kernel.current w.kernel
    → sema_try_down (lock_sema l) w ≡ (
        if w.value (lock_sema l) == 0
        then ok false w
        else ok true (set_value (lock_sema l) (w.value (lock_sema l) - 1) w))
    → lock_try_acquire l w ≡ (
        if w.holder l == w.kernel.current
        then panic
        else (if w.value (lock_sema l) == 0
            then ok false w
            else ok true (
                set_lock_holder l w.kernel.current
                  (set_value (lock_sema l) (w.value (lock_sema l) - 1) w))))
unfolding lock_try_acquire
acquire-runs w l real held cur down = ground (arith, held, cur, down)

-- In a running thread, `lock_try_acquire` panics on a lock that the thread holds; else it makes the
-- thread the holder of a lock whose semaphore is not 0 and takes one from it, and leaves a lock whose
-- semaphore is 0 as it is.
pub lock_try_acquire_lem :
    (w : Machine) (l : Ptr)
    → InThread w
    → (l == null) ≡ false
    → lock_try_acquire l w ≡ (
        if w.holder l == w.kernel.current
        then panic
        else (if w.value (lock_sema l) == 0
            then ok false w
            else ok true (
                set_lock_holder l w.kernel.current
                  (set_value (lock_sema l) (w.value (lock_sema l) - 1) w))))
lock_try_acquire_lem w l i real =
    acquire-runs w l real (held_lem w l i real) (current_lem w i)
      (sema_try_down_lem w (lock_sema l) (ground arith) i.intr)

pub release-runs :
    (v : Statics) (w w' : Machine) (l : Ptr)
    → (l == null) ≡ false
    → lock_held_by_current_thread l w ≡ ok true w
    → sema_up v (lock_sema l) (set_lock_holder l null w) ≡ ok tt w'
    → lock_release v l w ≡ ok tt w'
unfolding lock_release
release-runs v w w' l real held up = ground (arith, held, up)

-- What is left of a lock that was taken and given back: the machine as it was.
pub record RoundTrip (v : Statics) (l : Ptr) (w : Machine) : Type 0 where
  pub taken : Machine
  pub left : Machine
  pub takes : lock_try_acquire l w ≡ ok true taken
  pub holds : taken.holder l ≡ w.kernel.current
  pub refuses : taken.value (lock_sema l) ≡ 0
  pub gives : lock_release v l taken ≡ ok tt left
  pub same_kernel : left.kernel ≡ w.kernel
  pub same_value : (p : Ptr) → left.value p ≡ w.value p
  pub same_holder : (p : Ptr) → left.holder p ≡ w.holder p

-- In a running thread, a lock that is free and that no thread waits for is taken by
-- `lock_try_acquire`, its semaphore then being 0, and `lock_release` gives it back with everything as
-- it was before.
pub lock_release-lock_try_acquire :
    (v : Statics) (w : Machine) (q : Queues) (l : Ptr)
    → InThread w
    → (l == null) ≡ false
    → Family w.kernel.mem ((waiters (lock_sema l), []) ∷ lists v q)
    → w.value (lock_sema l) ≡ 1
    → w.holder l ≡ null
    → RoundTrip v l w
lock_release-lock_try_acquire v w q l i real f one free =
    let t = i.thread in
    let taken : Machine = set_lock_holder l w.kernel.current (set_value (lock_sema l) 0 w) in
    let i' : InThread taken = record { thread = i.thread; runs = i.runs; intr = i.intr } in
    let given : Machine = set_lock_holder l null taken in
    let held = held_lem taken l i' real in
    record {
      taken = taken;
      left = set_value (lock_sema l) ((given.value (lock_sema l) + 1) % 2 ^ 32) given;
      takes = ground (arith, lock_try_acquire_lem w l i real);
      holds = ground arith;
      refuses = ground arith;
      gives =
          release-runs v taken _ l real (ground arith)
            (sema_up_lem-empty v given q (lock_sema l) f (ground arith) i.intr);
      same_kernel = refl;
      same_value = λ p. ground arith;
      same_holder = λ p. ground arith;
    }
