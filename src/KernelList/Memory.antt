-- ===== src/KernelList/Memory.antt =====
-- The memory of lib/kernel/list.c: each `struct list_elem` is two pointers, at its address.
use cau_assignments.Base.{ℕ, ◌==◌, if◌then◌else◌}
use cau_assignments.Base.Run.{ok, Cmd}

abbrev pub Ptr : Type 0
Ptr = ℕ

abbrev pub null : Ptr
null = 0

-- The links of every element. An access through `NULL` does not arise: the code asserts each pointer
-- that it follows.
pub record Mem : Type 0 where
  pub prev : Ptr → Ptr
  pub next : Ptr → Ptr

abbrev pub update : (Ptr → Ptr) → Ptr → Ptr → Ptr → Ptr
update f p v q = if q == p then v else f q

-- `p->prev = v` and `p->next = v`
abbrev pub with_prev : Mem → Ptr → Ptr → Mem
with_prev m p v = record { prev = update m.prev p v; next = m.next }

abbrev pub with_next : Mem → Ptr → Ptr → Mem
with_next m p v = record { prev = m.prev; next = update m.next p v }

abbrev pub get_prev : Ptr → Cmd Mem Ptr
get_prev p m = ok (m.prev p) m

abbrev pub get_next : Ptr → Cmd Mem Ptr
get_next p m = ok (m.next p) m

abbrev pub set_prev : Ptr → Ptr → Cmd Mem (Unit {0})
set_prev p v m = ok tt (with_prev m p v)

abbrev pub set_next : Ptr → Ptr → Cmd Mem (Unit {0})
set_next p v m = ok tt (with_next m p v)
