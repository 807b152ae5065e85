-- ===== src/Tests/Sample.antt =====
-- Memories that hold given lists, for the tests.
use cau_assignments.Base.{◌≡◌, Bool, true, not, ◌&&◌, List, [], ◌∷◌, arith, has, ◌==◌, Distinct}
use cau_assignments.KernelList.Memory.{Ptr, null, Mem, with_prev, with_next}
use cau_assignments.KernelList.Ops.{head, tail}
use cau_assignments.KernelList.Lists.{nodes, Apart, IsList}
use cau_assignments.KernelList.Segment.{Linked}
use cau_assignments.KernelList.Family.{Lists, all_nodes, Family}

-- Links `a` through `xs` to `b`.
abbrev pub link : Ptr → List Ptr → Ptr → Mem → Mem
link a [] b m = with_prev (with_next m a b) b a
link a (x ∷ xs) b m = with_prev (with_next (link x xs b m) a x) x a

abbrev pub blank : Mem
blank = record { prev = λ p. null; next = λ p. null }

abbrev pub memory : Lists → Mem
memory [] = blank
memory ((l, xs) ∷ ls) = link l xs (tail l) (memory ls)

abbrev pub none_of : List Ptr → List Ptr → Bool
none_of [] qs = true
none_of (p ∷ ps) qs = not (has p qs) && none_of ps qs

pub none_of-Apart : (ps qs : List Ptr) → none_of ps qs ≡ true → Apart ps qs
none_of-Apart [] qs e p h = cc
none_of-Apart (x ∷ ps) qs e p h =
    ground (arith, none_of-Apart ps qs, none_of-Apart ps qs (ground arith) p)

abbrev pub linked_test : Mem → Ptr → List Ptr → Ptr → Bool
linked_test m a [] b = (m.next a == b) && (m.prev b == a)
linked_test m a (x ∷ xs) b = (m.next a == x) && ((m.prev x == a) && linked_test m x xs b)

linked_test-Linked :
    (m : Mem) (a : Ptr) (xs : List Ptr) (b : Ptr) → linked_test m a xs b ≡ true → Linked m a xs b
linked_test-Linked m a [] b e = (ground arith, ground arith)
linked_test-Linked m a (x ∷ xs) b e =
    (ground arith, ground arith, linked_test-Linked m x xs b (ground arith))

abbrev pub distinct_test : List Ptr → Bool
distinct_test [] = true
distinct_test (x ∷ xs) = not (has x xs) && distinct_test xs

distinct_test-Distinct : (xs : List Ptr) → distinct_test xs ≡ true → Distinct xs
distinct_test-Distinct [] e = tt
distinct_test-Distinct (x ∷ xs) e = (ground arith, distinct_test-Distinct xs (ground arith))

abbrev pub list_test : Mem → Ptr → List Ptr → Bool
list_test m l xs =
    (linked_test m (head l) xs (tail l) && distinct_test (nodes l xs))
    && ((m.prev (head l) == null) && ((m.next (tail l) == null) && not (has null (nodes l xs))))

pub list_test-IsList : (m : Mem) (l : Ptr) (xs : List Ptr) → list_test m l xs ≡ true → IsList m l xs
list_test-IsList m l xs e = record {
  linked = linked_test-Linked m l xs (tail l) (ground arith);
  start = ground arith;
  stop = ground arith;
  distinct = distinct_test-Distinct (nodes l xs) (ground arith);
  real = ground arith;
}

abbrev pub family_test : Mem → Lists → Bool
family_test m [] = true
family_test m ((l, xs) ∷ ls) =
    list_test m l xs && (none_of (nodes l xs) (all_nodes ls) && family_test m ls)

pub family_test-Family : (m : Mem) (ls : Lists) → family_test m ls ≡ true → Family m ls
family_test-Family m [] e = tt
family_test-Family m ((l, xs) ∷ ls) e = (
  list_test-IsList m l xs (ground arith),
  none_of-Apart (nodes l xs) (all_nodes ls) (ground arith),
  family_test-Family m ls (ground arith),
)
