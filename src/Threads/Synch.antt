-- ===== src/Threads/Synch.antt =====
-- Semaphores, locks and condition variables (threads/synch.c), over the threads and lists of the
-- kernel. A call that has to wait ends where `thread_block` switches to another thread; it returns
-- `waits` with the interrupt level to restore, and goes on with the loop of `sema_down` when the
-- thread runs again.
use cau_assignments.Base.{
  ℕ, zero, suc, ◌+◌, ◌-◌, ◌%◌, ◌^◌, Bool, true, false, not, ◌==◌, if◌then◌else◌,
}
use cau_assignments.Base.Run.{Cmd, ok, panic, out_of_fuel, pure, ◌>>=◌, ◌>>◌, assert, gets, modify}
use cau_assignments.KernelList.Memory.{Ptr, null, Mem}
use cau_assignments.KernelList.Ops.{non_null, list_init, list_empty, list_push_back, list_pop_front}
use cau_assignments.Threads.State.{Statics, Kernel, elem, elem_entry, on_mem}
use cau_assignments.Threads.Ops.{thread_current, intr_disable, intr_set_level}
use cau_assignments.Threads.Schedule.{thread_block, thread_unblock}

-- The kernel, with `value` of every `struct semaphore` and `holder` of every `struct lock`, by
-- address.
pub record Machine : Type 0 where
  pub kernel : Kernel
  pub value : Ptr → ℕ
  pub holder : Ptr → Ptr

pub data Down : Type 0 where
  got : Down
  waits : Bool → Down

-- `waiters` of a semaphore, `semaphore` of a lock, and `semaphore` of a `struct semaphore_elem`.
abbrev pub waiters : Ptr → Ptr
waiters s = s + 4

abbrev pub lock_sema : Ptr → Ptr
lock_sema l = l + 4

abbrev pub elem_sema : Ptr → Ptr
elem_sema e = e + 8

-- An operation of the kernel, and one on its lists.
abbrev pub on_kernel : {A : Type 0} → Cmd Kernel A → Cmd Machine A
on_kernel c s = elim (c s.kernel) [
  | ok a k ↦ ok a (record s { kernel = k })
  | panic ↦ panic
  | out_of_fuel ↦ out_of_fuel
]

abbrev on_list : {A : Type 0} → Cmd Mem A → Cmd Machine A
on_list c = on_kernel (on_mem c)

abbrev pub set_value : Ptr → ℕ → Machine → Machine
set_value s x w = record w { value = λ p. if p == s then x else w.value p }

abbrev pub set_lock_holder : Ptr → Ptr → Machine → Machine
set_lock_holder l t w = record w { holder = λ p. if p == l then t else w.holder p }

-- `ASSERT (!intr_context ())`
abbrev no_intr_context : Cmd Machine (Unit {0})
no_intr_context w = assert (not w.kernel.in_external_intr) w

unfoldable pub sema_init : Ptr → ℕ → Cmd Machine (Unit {0})
sema_init s x = do assert (non_null s); modify (set_value s x); on_list (list_init (waiters s))

unfoldable pub sema_try_down : Ptr → Cmd Machine Bool
sema_try_down s = do
  assert (non_null s)
  old ← on_kernel intr_disable
  x ← gets (λ w. w.value s)
  if x == 0
      then (do on_kernel (intr_set_level old); pure false)
      else (do modify (set_value s (x - 1)); on_kernel (intr_set_level old); pure true)

unfoldable pub lock_held_by_current_thread : Ptr → Cmd Machine Bool
lock_held_by_current_thread l = do
  assert (non_null l)
  cur ← on_kernel thread_current
  gets (λ w. w.holder l == cur)

unfoldable pub lock_init : Ptr → Cmd Machine (Unit {0})
lock_init l = do assert (non_null l); modify (set_lock_holder l null); sema_init (lock_sema l) 1

unfoldable pub lock_try_acquire : Ptr → Cmd Machine Bool
lock_try_acquire l = do
  assert (non_null l)
  held ← lock_held_by_current_thread l
  assert (not held)
  success ← sema_try_down (lock_sema l)
  if success
      then (do cur ← on_kernel thread_current; modify (set_lock_holder l cur); pure true)
      else pure false

unfoldable pub cond_init : Ptr → Cmd Machine (Unit {0})
cond_init c = do assert (non_null c); on_list (list_init c)

module _ (v : Statics) where
  -- The loop of `sema_down`, up to the next switch.
  unfoldable pub down_loop : Ptr → Bool → Cmd Machine Down
  down_loop s old = do
    x ← gets (λ w. w.value s)
    if x == 0
        then (do
          cur ← on_kernel thread_current
          on_list (list_push_back (waiters s) (elem cur))
          on_kernel (thread_block v)
          pure (waits old))
        else (do modify (set_value s (x - 1)); on_kernel (intr_set_level old); pure got)

  unfoldable pub sema_down : Ptr → Cmd Machine Down
  sema_down s = do
    assert (non_null s)
    no_intr_context
    old ← on_kernel intr_disable
    down_loop s old

  unfoldable pub sema_up : Ptr → Cmd Machine (Unit {0})
  sema_up s = do
    assert (non_null s)
    old ← on_kernel intr_disable
    empty ← on_list (list_empty (waiters s))
    (if empty then pure tt else (do
      e ← on_list (list_pop_front (waiters s))
      on_kernel (thread_unblock v (elem_entry e))))
    modify (λ w. set_value s ((w.value s + 1) % 2 ^ 32) w)
    on_kernel (intr_set_level old)

  -- The end of `lock_acquire`, behind `sema_down`.
  abbrev pub acquired : Ptr → Down → Cmd Machine Down
  acquired l got = do cur ← on_kernel thread_current; modify (set_lock_holder l cur); pure got
  acquired l (waits old) = pure (waits old)

  unfoldable pub lock_acquire : Ptr → Cmd Machine Down
  lock_acquire l = do
    assert (non_null l)
    no_intr_context
    held ← lock_held_by_current_thread l
    assert (not held)
    r ← sema_down (lock_sema l)
    acquired l r

  unfoldable pub lock_release : Ptr → Cmd Machine (Unit {0})
  lock_release l = do
    assert (non_null l)
    held ← lock_held_by_current_thread l
    assert held
    modify (set_lock_holder l null)
    sema_up (lock_sema l)

  -- `waiter` is the address of the local variable.
  unfoldable pub cond_wait : Ptr → Ptr → Ptr → Cmd Machine Down
  cond_wait waiter c l = do
    assert (non_null c)
    assert (non_null l)
    no_intr_context
    held ← lock_held_by_current_thread l
    assert held
    sema_init (elem_sema waiter) 0
    on_list (list_push_back c waiter)
    lock_release l
    r ← sema_down (elem_sema waiter)
    elim r [ got ↦ lock_acquire l | waits old ↦ pure (waits old) ]

  unfoldable pub cond_signal : Ptr → Ptr → Cmd Machine (Unit {0})
  cond_signal c l = do
    assert (non_null c)
    assert (non_null l)
    no_intr_context
    held ← lock_held_by_current_thread l
    assert held
    empty ← on_list (list_empty c)
    if empty then pure tt else do e ← on_list (list_pop_front c); sema_up (elem_sema e)

  broadcast_loop : ℕ → Ptr → Ptr → Cmd Machine (Unit {0})
  broadcast_loop zero c l = λ w. out_of_fuel
  broadcast_loop (suc n) c l = do
    empty ← on_list (list_empty c)
    if empty then pure tt else do cond_signal c l; broadcast_loop n c l

  unfoldable pub cond_broadcast : ℕ → Ptr → Ptr → Cmd Machine (Unit {0})
  unfolding broadcast_loop
  cond_broadcast n c l = do assert (non_null c); assert (non_null l); broadcast_loop n c l
