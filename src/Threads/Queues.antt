-- ===== src/Threads/Queues.antt =====
-- The four feedback queues of threads/thread.c.
use cau_assignments.Base.{ℕ, not, if◌then◌else◌}
use cau_assignments.Base.Run.{Cmd, pure, ◌>>=◌, ◌>>◌, gets, modify}
use cau_assignments.KernelList.Memory.{Ptr}
use cau_assignments.KernelList.Ops.{list_push_back, list_remove, list_empty, list_pop_front}
use cau_assignments.Threads.State.{Statics, Kernel, elem, elem_entry, on_mem, set_priority}
use cau_assignments.Threads.Ops.{switch_level}

-- `list_push_back (&queue, &(t->elem))`
abbrev pub enqueue : Ptr → Ptr → Cmd Kernel (Unit {0})
enqueue queue t = on_mem (list_push_back queue (elem t))

-- `list_remove(&(t->elem)); list_push_back(&queue, &(t->elem)); t->priority = p;`
abbrev pub requeue : Ptr → ℕ → Ptr → Cmd Kernel (Unit {0})
requeue queue p t = do on_mem (list_remove (elem t)); enqueue queue t; modify (set_priority t p)

-- `list_entry (list_pop_front (&queue), struct thread, elem)`
abbrev pub dequeue : Ptr → Cmd Kernel Ptr
dequeue queue = do e ← on_mem (list_pop_front queue); pure (elem_entry e)

module _ (v : Statics) where
  unfoldable pub thread_list_push_back : Ptr → Cmd Kernel (Unit {0})
  thread_list_push_back t k =
      switch_level (k.threads t).priority (enqueue v.fq0 t) (enqueue v.fq1 t) (enqueue v.fq2 t)
        (enqueue v.fq3 t) (pure tt) k

  unfoldable pub thread_set_priority_higher : Ptr → Cmd Kernel (Unit {0})
  thread_set_priority_higher t k =
      switch_level (k.threads t).priority (enqueue v.fq0 t) (requeue v.fq0 0 t) (requeue v.fq1 1 t)
        (requeue v.fq2 2 t) (pure tt) k

  unfoldable pub thread_set_priority_lower : Ptr → Cmd Kernel (Unit {0})
  thread_set_priority_lower t k =
      switch_level (k.threads t).priority (requeue v.fq1 1 t) (requeue v.fq2 2 t)
        (requeue v.fq3 3 t) (enqueue v.fq3 t) (pure tt) k

  unfoldable pub next_thread_to_run : Cmd Kernel Ptr
  next_thread_to_run = do
    empty0 ← on_mem (list_empty v.fq0)
    if not empty0 then dequeue v.fq0 else do
      empty1 ← on_mem (list_empty v.fq1)
      if not empty1 then dequeue v.fq1 else do
        empty2 ← on_mem (list_empty v.fq2)
        if not empty2 then dequeue v.fq2 else do
          empty3 ← on_mem (list_empty v.fq3)
          if not empty3 then dequeue v.fq3 else gets (λ k. k.idle_thread)
