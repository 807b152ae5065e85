-- ===== src/KernelList/Ops.antt =====
-- The operations of lib/kernel/list.c that relink or walk. A `struct list *` is the address of its
-- `head`; `tail` stands behind it, one `struct list_elem` of two 32-bit pointers later.
use cau_assignments.Base.{◌+◌, Bool, not, ◌&&◌, ◌||◌, ◌==◌, if◌then◌else◌}
use cau_assignments.Base.Run.{Cmd, pure, ◌>>=◌, ◌>>◌, assert}
use cau_assignments.KernelList.Memory.{Ptr, null, Mem, get_prev, get_next, set_prev, set_next}

abbrev pub head : Ptr → Ptr
head l = l

abbrev pub tail : Ptr → Ptr
tail l = l + 8

-- `p != NULL`
abbrev pub non_null : Ptr → Bool
non_null p = not (p == null)

unfoldable pub is_head : Mem → Ptr → Bool
is_head m e = non_null e && ((m.prev e == null) && non_null (m.next e))

unfoldable pub is_interior : Mem → Ptr → Bool
is_interior m e = non_null e && (non_null (m.prev e) && non_null (m.next e))

unfoldable pub is_tail : Mem → Ptr → Bool
is_tail m e = non_null e && (non_null (m.prev e) && (m.next e == null))

-- An assertion on the memory.
abbrev check : (Mem → Bool) → Cmd Mem (Unit {0})
check f m = assert (f m) m

unfoldable pub list_init : Ptr → Cmd Mem (Unit {0})
list_init l = do
  assert (non_null l)
  set_prev (head l) null
  set_next (head l) (tail l)
  set_prev (tail l) (head l)
  set_next (tail l) null

unfoldable pub list_begin : Ptr → Cmd Mem Ptr
list_begin l = do assert (non_null l); get_next (head l)

unfoldable pub list_next : Ptr → Cmd Mem Ptr
unfolding is_head is_interior
list_next e = do check (λ m. is_head m e || is_interior m e); get_next e

unfoldable pub list_end : Ptr → Cmd Mem Ptr
list_end l = do assert (non_null l); pure (tail l)

unfoldable pub list_rbegin : Ptr → Cmd Mem Ptr
list_rbegin l = do assert (non_null l); get_prev (tail l)

unfoldable pub list_prev : Ptr → Cmd Mem Ptr
unfolding is_interior is_tail
list_prev e = do check (λ m. is_interior m e || is_tail m e); get_prev e

unfoldable pub list_rend : Ptr → Cmd Mem Ptr
list_rend l = do assert (non_null l); pure (head l)

unfoldable pub list_head : Ptr → Cmd Mem Ptr
list_head l = do assert (non_null l); pure (head l)

unfoldable pub list_tail : Ptr → Cmd Mem Ptr
list_tail l = do assert (non_null l); pure (tail l)

unfoldable pub list_insert : Ptr → Ptr → Cmd Mem (Unit {0})
unfolding is_interior is_tail
list_insert before e = do
  check (λ m. is_interior m before || is_tail m before)
  assert (non_null e)
  p ← get_prev before
  set_prev e p
  set_next e before
  q ← get_prev before
  set_next q e
  set_prev before e

-- The second half of `list_splice`, from its last two assertions on.
splice_range : Ptr → Ptr → Ptr → Cmd Mem (Unit {0})
unfolding is_interior
splice_range before first last = do
  check (λ m. is_interior m first)
  check (λ m. is_interior m last)
  p ← get_prev first
  n ← get_next last
  set_next p n
  n' ← get_next last
  p' ← get_prev first
  set_prev n' p'
  b ← get_prev before
  set_prev first b
  set_next last before
  b' ← get_prev before
  set_next b' first
  set_prev before last

unfoldable pub list_splice : Ptr → Ptr → Ptr → Cmd Mem (Unit {0})
unfolding is_interior is_tail splice_range
list_splice before first last = do
  check (λ m. is_interior m before || is_tail m before)
  if first == last then pure tt else (do last' ← list_prev last; splice_range before first last')

unfoldable pub list_push_front : Ptr → Ptr → Cmd Mem (Unit {0})
unfolding list_begin
list_push_front l e = do b ← list_begin l; list_insert b e

unfoldable pub list_push_back : Ptr → Ptr → Cmd Mem (Unit {0})
unfolding list_end
list_push_back l e = do b ← list_end l; list_insert b e

unfoldable pub list_remove : Ptr → Cmd Mem Ptr
unfolding is_interior
list_remove e = do
  check (λ m. is_interior m e)
  p ← get_prev e
  n ← get_next e
  set_next p n
  n' ← get_next e
  p' ← get_prev e
  set_prev n' p'
  get_next e

unfoldable pub list_empty : Ptr → Cmd Mem Bool
unfolding list_begin list_end
list_empty l = do b ← list_begin l; e ← list_end l; pure (b == e)

unfoldable pub list_front : Ptr → Cmd Mem Ptr
list_front l = do b ← list_empty l; assert (not b); get_next (head l)

unfoldable pub list_back : Ptr → Cmd Mem Ptr
list_back l = do b ← list_empty l; assert (not b); get_prev (tail l)

unfoldable pub list_pop_front : Ptr → Cmd Mem Ptr
list_pop_front l = do front ← list_front l; list_remove front; pure front

unfoldable pub list_pop_back : Ptr → Cmd Mem Ptr
list_pop_back l = do back ← list_back l; list_remove back; pure back
