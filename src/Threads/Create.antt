-- ===== src/Threads/Create.antt =====
-- Threads come into being: `thread_init` and `thread_create` of threads/thread.c. The
-- page that `palloc_get_page` returns is a parameter; it holds zeros.
use cau_assignments.Base.{
  ℕ, zero, suc, ◌+◌, ◌-◌, ◌%◌, ◌^◌, Bool, not, ◌&&◌, List, [], ◌∷◌, Option, none, some, ◌==◌,
  if◌then◌else◌,
}
use cau_assignments.Base.Run.{Cmd, ok, panic, out_of_fuel, pure, ◌>>=◌, ◌>>◌, assert, gets, modify}
use cau_assignments.Base.Words.{gt_int}
use cau_assignments.KernelList.Memory.{Ptr, null, Mem, update}
use cau_assignments.KernelList.Ops.{list_init, list_push_back}
use cau_assignments.Threads.State.{
  Status, Statics, Thread, Kernel, elem, allelem, on_mem, set_thread, thread_magic, page_size,
  pri_highest, pri_lowest, pri_default,
}
use cau_assignments.Threads.Ops.{is_thread, intr_disable, intr_set_level}
use cau_assignments.Threads.Schedule.{thread_unblock}
use cau_assignments.Threads.Synch.{Machine, Down, on_kernel, lock_init, lock_acquire, lock_release}

-- The machine with the words of the stacks of the threads, by address.
pub record Loaded : Type 0 where
  pub machine : Machine
  pub word : Ptr → ℕ

-- Where the linker puts `tid_lock`, `kernel_thread` and `switch_entry`.
pub record Linked : Type 0 where
  pub tid_lock : Ptr
  pub kernel_thread : Ptr
  pub switch_entry : Ptr

-- A call has returned the identifier of the thread, or failed, or waits for the lock with the level to
-- restore.
pub data Created : Type 0 where
  tid : ℕ → Created
  tid_error : Created
  in_lock : Bool → Created

abbrev pub on_machine : {A : Type 0} → Cmd Machine A → Cmd Loaded A
on_machine c s = elim (c s.machine) [
  | ok a w ↦ ok a (record s { machine = w })
  | panic ↦ panic
  | out_of_fuel ↦ out_of_fuel
]

abbrev pub store_word : Ptr → ℕ → Cmd Loaded (Unit {0})
store_word p x = modify (λ s. record s { word = update s.word p x })

-- What `strlcpy` keeps of a name, with room for `n` characters and the zero.
abbrev pub name_part : ℕ → List ℕ → List ℕ
name_part zero s = []
name_part (suc n) [] = []
name_part (suc n) (c ∷ s) = c ∷ name_part n s

-- `memset (t, 0, sizeof *t)`, the links in the list elements included.
abbrev pub no_thread : Thread
no_thread = record {
  tid = 0;
  status = Status.running;
  name = [];
  stack = 0;
  priority = 0;
  age = 0;
  wakeup_tick = 0;
  magic = 0;
}

abbrev pub cleared : Ptr → Mem → Mem
cleared t m = record {
  prev = update (update m.prev (allelem t) 0) (elem t) 0;
  next = update (update m.next (allelem t) 0) (elem t) 0;
}

abbrev pub clear : Ptr → Kernel → Kernel
clear t k = set_thread t no_thread (record k { mem = cleared t k.mem })

-- The fields that `init_thread` sets.
abbrev pub fresh : Ptr → List ℕ → ℕ → Thread
fresh t name priority = record no_thread {
  status = Status.blocked;
  name = name_part 15 name;
  stack = (t + page_size) % 2 ^ 32;
  priority = priority;
  magic = thread_magic;
}

abbrev pub set_tid : Ptr → ℕ → Kernel → Kernel
set_tid t n k = set_thread t (record (k.threads t) { tid = n }) k

abbrev pub set_age : Ptr → ℕ → Kernel → Kernel
set_age t n k = set_thread t (record (k.threads t) { age = n }) k

-- Without a name the pointer is `NULL`.
unfoldable pub init_thread : Statics → Ptr → Option (List ℕ) → ℕ → Cmd Kernel (Unit {0})
init_thread v t none priority = λ k. panic
init_thread v t (some name) priority = do
  assert (not (t == null))
  assert (not (gt_int pri_highest priority) && not (gt_int priority pri_lowest))
  modify (clear t)
  modify (set_thread t (fresh t name priority))
  old ← intr_disable
  on_mem (list_push_back v.all_list (allelem t))
  intr_set_level old

unfoldable pub alloc_frame : Ptr → ℕ → Cmd Loaded Ptr
alloc_frame t size = do
  k ← gets (λ s. s.machine.kernel)
  assert (is_thread k t)
  assert (size % 4 == 0)
  let sp = ((k.threads t).stack + 2 ^ 32 - size) % 2 ^ 32
  on_machine (on_kernel (modify (λ x. set_thread t (record (x.threads t) { stack = sp }) x)))
  pure sp

module _ (v : Statics) (at : Linked) where
  -- The end of `allocate_tid`, with the lock.
  unfoldable pub take_tid : Cmd Machine ℕ
  take_tid = do
    n ← gets (λ w. w.kernel.next_tid)
    on_kernel (modify (λ k. record k { next_tid = (k.next_tid + 1) % 2 ^ 32 }))
    lock_release v at.tid_lock
    pure n

  -- The three stack frames: for `kernel_thread`, `switch_entry` and `switch_threads`.
  unfoldable pub stack_frames : Ptr → Ptr → Ptr → Cmd Loaded (Unit {0})
  stack_frames t function aux = do
    kf ← alloc_frame t 12
    store_word kf null
    store_word (kf + 4) function
    store_word (kf + 8) aux
    ef ← alloc_frame t 4
    store_word ef at.kernel_thread
    sf ← alloc_frame t 28
    store_word (sf + 16) at.switch_entry
    store_word (sf + 8) 0

  -- `thread_create` from the place on where it has the lock.
  unfoldable pub create_rest : Ptr → Ptr → Ptr → Cmd Loaded Created
  create_rest t function aux = do
    n ← on_machine take_tid
    on_machine (on_kernel (modify (set_tid t n)))
    on_machine (on_kernel (modify (set_age t 0)))
    stack_frames t function aux
    on_machine (on_kernel (thread_unblock v t))
    pure (Created.tid n)

  unfoldable pub thread_create : Ptr → Option (List ℕ) → ℕ → Ptr → Ptr → Cmd Loaded Created
  thread_create page name priority function aux = do
    assert (not (function == null))
    if page == null then pure Created.tid_error else do
      on_machine (on_kernel (init_thread v page name priority))
      r ← on_machine (lock_acquire v at.tid_lock)
      elim r [
        | Down.got ↦ create_rest page function aux
        | Down.waits old ↦ pure (Created.in_lock old)
      ]

  -- `main` is the page of the running thread, whose name `thread_init` gives.
  unfoldable pub thread_init : Ptr → List ℕ → Cmd Machine Down
  thread_init main name = do
    off ← gets (λ w. not w.kernel.intr_on)
    assert off
    lock_init at.tid_lock
    on_kernel (on_mem (list_init v.fq0))
    on_kernel (on_mem (list_init v.fq1))
    on_kernel (on_mem (list_init v.fq2))
    on_kernel (on_mem (list_init v.fq3))
    on_kernel (on_mem (list_init v.all_list))
    on_kernel (on_mem (list_init v.sleep_list))
    on_kernel (modify (λ k. record k { initial_thread = main }))
    on_kernel (init_thread v main (some name) pri_default)
    on_kernel
        (modify (λ k. set_thread main (record (k.threads main) { status = Status.running }) k))
    r ← lock_acquire v at.tid_lock
    elim r [
      | Down.got ↦ (do n ← take_tid; on_kernel (modify (set_tid main n)); pure Down.got)
      | Down.waits old ↦ pure (Down.waits old)
    ]
