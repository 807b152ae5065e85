-- ===== src/KernelList/Step.antt =====
-- One step along a list: `list_begin` and `list_next`.
use cau_assignments.Base.{
  ◌≡◌, true, false, List, [], ◌∷◌, ◌++◌, ◌||◌, ◌==◌, arith, has, subst, sym, ap, ◌∙◌, has-append,
}
use cau_assignments.Base.Run.{ok}
use cau_assignments.KernelList.Memory.{Ptr, null, Mem}
use cau_assignments.KernelList.Ops.{tail, list_begin, list_next, list_end}
use cau_assignments.KernelList.Lists.{
  nodes, IsList, first, first-mem, first_next, real_list, has-ne, has-cut, IsList-Cut,
}

pub list_next-ok :
    (m : Mem) (e : Ptr)
    → (e == null) ≡ false
    → (m.next e == null) ≡ false
    → list_next e m ≡ ok (m.next e) m
unfolding list_next
list_next-ok m e h k = ground arith

-- `list_next` goes from an element to the one behind it, or to the tail.
pub list_next_lem :
    (m : Mem) (l : Ptr) (xs : List Ptr) (e : Ptr) (ys : List Ptr)
    → IsList m l (xs ++ e ∷ ys)
    → list_next e m ≡ ok (first ys (tail l)) m
list_next_lem m l xs e ys is =
    let whole = λ (p : Ptr). has-cut p l xs (e ∷ ys) in
    let n = first_next m e (tail l) ys (IsList-Cut xs e ys is).back in
    let f : (has (m.next e) ys || (m.next e == tail l)) ≡ true =
      subst (λ p. (has p ys || (p == tail l)) ≡ true) (sym n) (first-mem ys (tail l)) in
    list_next-ok m e (has-ne e null (nodes l (xs ++ e ∷ ys)) (ground (arith, whole e)) is.real)
      (has-ne (m.next e) null (nodes l (xs ++ e ∷ ys)) (ground (arith, whole (m.next e))) is.real)
    ∙ ap (λ p. ok p m) n

-- `list_begin` is the first element, or the tail.
pub list_begin_lem :
    (m : Mem) (l : Ptr) (xs : List Ptr) → IsList m l xs → list_begin l m ≡ ok (first xs (tail l)) m
unfolding list_begin
list_begin_lem m l xs is =
    rw (real_list xs is) (ap (λ p. ok p m) (first_next m l (tail l) xs is.linked))

pub list_end_lem :
    (m : Mem) (l : Ptr) (xs : List Ptr) → IsList m l xs → list_end l m ≡ ok (tail l) m
unfolding list_end
list_end_lem m l xs is = rw (real_list xs is)

-- An element is not the tail of its list.
pub elem-ne-tail :
    (m : Mem) (l : Ptr) (xs : List Ptr) (e : Ptr) (ys : List Ptr)
    → IsList m l (xs ++ e ∷ ys)
    → (e == tail l) ≡ false
elem-ne-tail m l xs e ys is =
    let c = IsList-Cut xs e ys is in ground (arith, c.distinct_back, has-append e ys (tail l ∷ []))
