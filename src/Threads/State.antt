-- ===== src/Threads/State.antt =====
-- `struct thread` (threads/thread.h) and the variables of threads/thread.c.
use cau_assignments.Base.{ℕ, ◌≡◌, ◌+◌, ◌-◌, Bool, false, List, ◌==◌, if◌then◌else◌}
use cau_assignments.Base.Run.{ok, panic, out_of_fuel, Cmd}
use cau_assignments.KernelList.Memory.{Ptr, Mem}

pub data Status : Type 0 where
  running ready blocked dying : Status

abbrev pub is_ready : Status → Bool
is_ready Status.ready = Bool.true
is_ready _ = false

abbrev pub is_running : Status → Bool
is_running Status.running = Bool.true
is_running _ = false

abbrev pub is_blocked : Status → Bool
is_blocked Status.blocked = Bool.true
is_blocked _ = false

abbrev pub is_dying : Status → Bool
is_dying Status.dying = Bool.true
is_dying _ = false

-- The links `allelem` and `elem` of the struct stand in the memory of list elements. The integers
-- are bit patterns: `priority` and `age` of 32 bits, `wakeup_tick` of 64.
pub record Thread : Type 0 where
  pub tid : ℕ
  pub status : Status
  pub name : List ℕ
  pub stack : Ptr
  pub priority : ℕ
  pub age : ℕ
  pub wakeup_tick : ℕ
  pub magic : ℕ

abbrev pub thread_magic : ℕ
thread_magic = 0xcd6a_bf4b

abbrev pub pri_highest : ℕ
pri_highest = 0

abbrev pub pri_default : ℕ
pri_default = 0

abbrev pub pri_lowest : ℕ
pri_lowest = 3

abbrev pub page_size : ℕ
page_size = 4096

-- Offsets of the list elements in the struct on a 32-bit machine.
abbrev pub allelem : Ptr → Ptr
allelem t = t + 36

abbrev pub elem : Ptr → Ptr
elem t = t + 44

-- `list_entry (e, struct thread, elem)` and `list_entry (e, struct thread, allelem)`
abbrev pub elem_entry : Ptr → Ptr
elem_entry e = e - 44

abbrev pub allelem_entry : Ptr → Ptr
allelem_entry e = e - 36

-- Where the linker puts the lists of threads/thread.c.
pub record Statics : Type 0 where
  pub fq0 : Ptr
  pub fq1 : Ptr
  pub fq2 : Ptr
  pub fq3 : Ptr
  pub all_list : Ptr
  pub sleep_list : Ptr

-- The variables of threads/thread.c and `ticks` of devices/timer.c, with the thread that the stack pointer names as `current`, the
-- interrupt flag, and the flags of the interrupt handler that is running. `freed` records the
-- pages that were handed to `palloc_free_page`.
pub record Kernel : Type 0 where
  pub mem : Mem
  pub threads : Ptr → Thread
  pub current : Ptr
  pub idle_thread : Ptr
  pub initial_thread : Ptr
  pub next_tick_to_wakeup : ℕ
  pub idle_ticks : ℕ
  pub kernel_ticks : ℕ
  pub thread_ticks : ℕ
  pub next_tid : ℕ
  pub ticks : ℕ
  pub intr_on : Bool
  pub in_external_intr : Bool
  pub yield_on_return : Bool
  pub freed : List Ptr

-- An operation of lib/kernel/list.c.
abbrev pub on_mem : {A : Type 0} → Cmd Mem A → Cmd Kernel A
on_mem c k = elim (c k.mem) [
  | ok a m ↦ ok a (record k { mem = m })
  | panic ↦ panic
  | out_of_fuel ↦ out_of_fuel
]

abbrev pub set_thread : Ptr → Thread → Kernel → Kernel
set_thread t v k = record k { threads = λ p. if p == t then v else k.threads p }

abbrev pub set_status : Ptr → Status → Kernel → Kernel
set_status t s k = set_thread t (record (k.threads t) { status = s }) k

abbrev pub set_priority : Ptr → ℕ → Kernel → Kernel
set_priority t p k = set_thread t (record (k.threads t) { priority = p }) k

pub on_mem-ok :
    {A : Type 0} (c : Cmd Mem A) (k : Kernel) {a : A} {m : Mem}
    → c k.mem ≡ ok a m
    → on_mem c k ≡ ok a (record k { mem = m })
on_mem-ok c k h = rw (h, on_mem)
