-- ===== src/Threads/Ops.antt =====
-- Small operations of threads/thread.c and threads/interrupt.c that the others call.
use cau_assignments.Base.{ℕ, Bool, true, false, not, ◌&&◌, ◌==◌, if◌then◌else◌}
use cau_assignments.Base.Run.{Cmd, pure, ◌>>=◌, ◌>>◌, assert, gets, modify}
use cau_assignments.KernelList.Memory.{Ptr, null}
use cau_assignments.Threads.State.{Kernel, thread_magic, is_running, set_priority}

-- An assertion on the state.
abbrev pub check : (Kernel → Bool) → Cmd Kernel (Unit {0})
check f k = assert (f k) k

-- `intr_disable`, which returns the old level.
unfoldable pub intr_disable : Cmd Kernel Bool
intr_disable = do old ← gets (λ k. k.intr_on); modify (λ k. record k { intr_on = false }); pure old

unfoldable pub intr_enable : Cmd Kernel (Unit {0})
intr_enable = do check (λ k. not k.in_external_intr); modify (λ k. record k { intr_on = true })

unfoldable pub intr_set_level : Bool → Cmd Kernel (Unit {0})
unfolding intr_enable intr_disable
intr_set_level true = intr_enable
intr_set_level false = intr_disable >>= λ old. pure tt

unfoldable pub intr_yield_on_return : Cmd Kernel (Unit {0})
intr_yield_on_return = do
  check (λ k. k.in_external_intr)
  modify (λ k. record k { yield_on_return = true })

abbrev pub is_thread : Kernel → Ptr → Bool
is_thread k t = not (t == null) && ((k.threads t).magic == thread_magic)

unfoldable pub thread_current : Cmd Kernel Ptr
thread_current = do
  t ← gets (λ k. k.current)
  check (λ k. is_thread k t)
  check (λ k. is_running (k.threads t).status)
  pure t

unfoldable pub thread_set_priority : ℕ → Cmd Kernel (Unit {0})
unfolding thread_current
thread_set_priority p = do t ← thread_current; modify (set_priority t p)

unfoldable pub thread_get_priority : Cmd Kernel ℕ
unfolding thread_current
thread_get_priority = do t ← thread_current; gets (λ k. (k.threads t).priority)

unfoldable pub thread_tid : Cmd Kernel ℕ
unfolding thread_current
thread_tid = do t ← thread_current; gets (λ k. (k.threads t).tid)

-- `switch (p)` with the cases 0 to 3; any other value falls through.
abbrev pub switch_level {ℓ} : {A : Type ℓ} → ℕ → A → A → A → A → A → A
switch_level p a0 a1 a2 a3 other =
    if p == 0
    then a0
    else (if p == 1 then a1 else (if p == 2 then a2 else (if p == 3 then a3 else other)))
