-- ===== src/Threads/Schedule.antt =====
-- Switching threads: the part of threads/thread.c that runs with interrupts off. A command ends
-- where the next thread runs; what a thread does after it is switched back in is a step of its own.
use cau_assignments.Base.{ℕ, zero, suc, ◌+◌, ◌%◌, ◌^◌, not, ◌&&◌, ◌∷◌, ◌==◌, if◌then◌else◌}
use cau_assignments.Base.Run.{out_of_fuel, Cmd, pure, ◌>>=◌, ◌>>◌, assert, gets, modify}
use cau_assignments.Base.Words.{gt_int}
use cau_assignments.KernelList.Memory.{Ptr, null}
use cau_assignments.KernelList.Ops.{list_remove, list_begin, list_end, list_next}
use cau_assignments.Threads.State.{
  Status, Statics, Kernel, is_ready, is_running, is_blocked, is_dying, allelem, allelem_entry,
  on_mem, set_thread, set_status,
}
use cau_assignments.Threads.Ops.{check, intr_disable, intr_set_level, is_thread, thread_current}
use cau_assignments.Threads.Queues.{
  thread_list_push_back, thread_set_priority_lower, next_thread_to_run,
}

-- `prev` is the thread that ran before, or `NULL`.
unfoldable pub thread_schedule_tail : Ptr → Cmd Kernel (Unit {0})
thread_schedule_tail prev = do
  cur ← gets (λ k. k.current)
  check (λ k. not k.intr_on)
  modify (set_status cur Status.running)
  modify (λ k. record k { thread_ticks = 0 })
  destroy ← gets (λ k.
      not (prev == null) && (is_dying (k.threads prev).status && not (prev == k.initial_thread)))
  if destroy
      then (do assert (not (prev == cur)); modify (λ k. record k { freed = prev ∷ k.freed }))
      else pure tt

module _ (v : Statics) where
  -- `switch_threads` makes `next` the current thread, and `next` finds `cur` as `prev`.
  unfoldable pub schedule : Cmd Kernel (Unit {0})
  schedule = do
    cur ← gets (λ k. k.current)
    next ← next_thread_to_run v
    check (λ k. not k.intr_on)
    check (λ k. not (is_running (k.threads cur).status))
    check (λ k. is_thread k next)
    if cur == next
        then thread_schedule_tail null
        else do modify (λ k. record k { current = next }); thread_schedule_tail cur

  unfoldable pub thread_block : Cmd Kernel (Unit {0})
  thread_block = do
    check (λ k. not k.in_external_intr)
    check (λ k. not k.intr_on)
    t ← thread_current
    modify (set_status t Status.blocked)
    schedule

  unfoldable pub thread_unblock : Ptr → Cmd Kernel (Unit {0})
  thread_unblock t = do
    check (λ k. is_thread k t)
    old ← intr_disable
    check (λ k. is_blocked (k.threads t).status)
    thread_list_push_back v t
    modify (set_status t Status.ready)
    intr_set_level old

  -- The loop of `thread_foreach`, from the list element `e` on.
  unfoldable pub foreach_loop : ℕ → (Ptr → Cmd Kernel (Unit {0})) → Ptr → Cmd Kernel (Unit {0})
  foreach_loop zero func e = λ k. out_of_fuel
  foreach_loop (suc n) func e = do
    end ← on_mem (list_end v.all_list)
    if e == end
        then pure tt
        else do func (allelem_entry e); e' ← on_mem (list_next e); foreach_loop n func e'

  unfoldable pub thread_foreach : ℕ → (Ptr → Cmd Kernel (Unit {0})) → Cmd Kernel (Unit {0})
  unfolding foreach_loop
  thread_foreach fuel func = do
    check (λ k. not k.intr_on)
    e ← on_mem (list_begin v.all_list)
    foreach_loop fuel func e

  unfoldable pub thread_age : ℕ → Ptr → Cmd Kernel (Unit {0})
  thread_age priority_under t k =
      if t == k.idle_thread
      then pure tt k
      else (if is_ready (k.threads t).status && gt_int (k.threads t).priority priority_under
          then modify
              (λ s.
                set_thread t (record (s.threads t) { age = ((s.threads t).age + 1) % 2 ^ 32 }) s)
              k
          else pure tt k)

  unfoldable pub list_under_priority_get_age : ℕ → ℕ → Cmd Kernel (Unit {0})
  list_under_priority_get_age fuel priority_under = thread_foreach fuel (thread_age priority_under)

  -- Only the ageing stands under the test for the idle thread.
  unfoldable pub thread_yield : ℕ → Cmd Kernel (Unit {0})
  thread_yield fuel = do
    cur ← thread_current
    check (λ k. not k.in_external_intr)
    intr_disable
    is_idle ← gets (λ k. cur == k.idle_thread)
    p ← gets (λ k. (k.threads cur).priority)
    if is_idle then pure tt else list_under_priority_get_age fuel p
    thread_set_priority_lower v cur
    modify (set_status cur Status.ready)
    schedule

  unfoldable pub thread_exit : Cmd Kernel (Unit {0})
  thread_exit = do
    check (λ k. not k.in_external_intr)
    intr_disable
    cur ← thread_current
    on_mem (list_remove (allelem cur))
    cur' ← thread_current
    modify (set_status cur' Status.dying)
    schedule
