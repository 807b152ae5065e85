-- ===== src/Threads/Sleep.antt =====
-- Sleeping and waking by the timer: `thread_sleep`, `thread_wakeup` and `thread_tick` of
-- threads/thread.c, and `timer_interrupt` of devices/timer.c.
use cau_assignments.Base.{
  ℕ, zero, suc, ◌+◌, ◌%◌, ◌^◌, not, Option, none, some, ◌==◌, leb, if◌then◌else◌,
}
use cau_assignments.Base.Run.{panic, out_of_fuel, Cmd, pure, ◌>>=◌, ◌>>◌, gets, modify}
use cau_assignments.Base.Words.{le_int64, gt_int64, int64_max}
use cau_assignments.KernelList.Memory.{Ptr}
use cau_assignments.KernelList.Ops.{list_push_back, list_remove, list_begin, list_end, list_next}
use cau_assignments.Threads.State.{Statics, Kernel, elem, elem_entry, on_mem, set_thread}
use cau_assignments.Threads.Ops.{
  check, intr_disable, intr_yield_on_return, thread_current, switch_level,
}
use cau_assignments.Threads.Schedule.{thread_block, thread_unblock}

-- The smaller of the two ticks.
unfoldable pub update_next_tick_to_wakeup : ℕ → Cmd Kernel (Unit {0})
update_next_tick_to_wakeup tick = modify λ k. record k {
  next_tick_to_wakeup = if gt_int64 k.next_tick_to_wakeup tick then tick else k.next_tick_to_wakeup;
}

unfoldable pub get_next_tick_to_wakeup : Cmd Kernel ℕ
get_next_tick_to_wakeup = gets (λ k. k.next_tick_to_wakeup)

-- The time slice of each feedback queue. For another priority the variable is not initialised.
unfoldable pub time_slice : ℕ → Option ℕ
time_slice p = switch_level p (some 4) (some 5) (some 6) (some 7) none

-- The test of `++thread_ticks` against the slice, on unsigned integers.
slice_end : Option ℕ → Cmd Kernel (Unit {0})
unfolding intr_yield_on_return
slice_end none k = panic
slice_end (some slice) k =
    let s : Kernel = record k { thread_ticks = (k.thread_ticks + 1) % 2 ^ 32 } in
    if leb slice s.thread_ticks then intr_yield_on_return s else pure tt s

-- A priority outside of the four levels leaves the slice undefined, which counts as a panic here.
unfoldable pub thread_tick : Cmd Kernel (Unit {0})
unfolding slice_end time_slice
thread_tick = do
  t ← thread_current
  modify (λ k.
      if t == k.idle_thread
      then record k { idle_ticks = (k.idle_ticks + 1) % 2 ^ 64 }
      else record k { kernel_ticks = (k.kernel_ticks + 1) % 2 ^ 64 })
  slice ← gets (λ k. time_slice (k.threads t).priority)
  slice_end slice

module _ (v : Statics) where
  unfoldable pub thread_sleep : ℕ → Cmd Kernel (Unit {0})
  thread_sleep tick = do
    intr_disable
    cur ← thread_current
    check (λ k. not (cur == k.idle_thread))
    modify (λ k. set_thread cur (record (k.threads cur) { wakeup_tick = tick }) k)
    update_next_tick_to_wakeup tick
    on_mem (list_push_back v.sleep_list (elem cur))
    thread_block v

  -- The loop of `thread_wakeup`, from the list element `e` on.
  unfoldable pub wakeup_loop : ℕ → ℕ → Ptr → Cmd Kernel (Unit {0})
  wakeup_loop zero now e = λ k. out_of_fuel
  wakeup_loop (suc n) now e = do
    end ← on_mem (list_end v.sleep_list)
    if e == end then pure tt else do
      wakeup ← gets (λ k. (k.threads (elem_entry e)).wakeup_tick)
      if le_int64 wakeup now
          then (do
            e' ← on_mem (list_remove (elem (elem_entry e)))
            thread_unblock v (elem_entry e)
            wakeup_loop n now e')
          else (do
            e' ← on_mem (list_next e)
            update_next_tick_to_wakeup wakeup
            wakeup_loop n now e')

  unfoldable pub thread_wakeup : ℕ → ℕ → Cmd Kernel (Unit {0})
  thread_wakeup fuel now = do
    modify (λ k. record k { next_tick_to_wakeup = int64_max })
    e ← on_mem (list_begin v.sleep_list)
    wakeup_loop fuel now e

  unfoldable pub timer_interrupt : ℕ → Cmd Kernel (Unit {0})
  unfolding get_next_tick_to_wakeup
  timer_interrupt fuel = do
    modify (λ k. record k { ticks = (k.ticks + 1) % 2 ^ 64 })
    thread_tick
    next ← get_next_tick_to_wakeup
    now ← gets (λ k. k.ticks)
    if le_int64 next now then thread_wakeup fuel now else pure tt
