-- ===== src/KernelList/Remove.antt =====
-- `list_remove`, `list_pop_front` and `list_pop_back` take out the element that they say.
use cau_assignments.Base.{
  ◌≡◌, true, false, ◌||◌, List, [], ◌∷◌, ◌++◌, ◌==◌, arith, has, has-append, Distinct, append-nil,
  append_assoc, subst, sym, ap, ◌∙◌,
}
use cau_assignments.Base.Run.{ok, panic}
use cau_assignments.KernelList.Memory.{Ptr, null, Mem, with_prev, with_next}
use cau_assignments.KernelList.Ops.{
  tail, list_remove, list_empty, list_front, list_back, list_pop_front, list_pop_back,
}
use cau_assignments.KernelList.Segment.{
  Linked, Linked-frame, Linked-append, Linked-retarget, mem-prev,
}
use cau_assignments.KernelList.Lists.{
  nodes, IsList, SameOutside, first, first_next, first-mem, real_list, has-ne, has-cut,
  Distinct-nodes, IsList-Cut, Cut,
}

-- The memory after `list_remove (e)`: the neighbours are linked, and `e` keeps its own links.
abbrev pub removed : Mem → Ptr → Mem
removed m e = with_prev (with_next m (m.prev e) (m.next e)) (m.next e) (m.prev e)

pub list_remove-ok :
    (m : Mem) (e : Ptr)
    → (e == null) ≡ false
    → (m.prev e == null) ≡ false
    → (m.next e == null) ≡ false
    → list_remove e m ≡ ok (m.next e) (removed m e)
unfolding list_remove
list_remove-ok m e h1 h2 h3 = ground arith

-- What is not linked in from both sides trips the assertion.
pub list_remove-panic :
    (m : Mem) (e : Ptr)
    → ((e == null) || ((m.prev e == null) || (m.next e == null))) ≡ true
    → list_remove e m ≡ panic
unfolding list_remove
list_remove-panic m e h = ground arith

removed-Linked :
    (m : Mem) (l : Ptr) (xs : List Ptr) (e : Ptr) (ys : List Ptr)
    → Cut m l xs e ys
    → Linked (removed m e) l (xs ++ ys) (tail l)
removed-Linked m l xs e [] c =
    let last = mem-prev m l xs e c.front in
    subst (λ zs. Linked (removed m e) l zs (tail l)) (sym (append-nil xs))
      (Linked-retarget (removed m e) l xs e (tail l) c.front c.distinct_front (ground arith)
        (ground arith) (λ p h k. ground arith) (λ p h. ground (arith, c.apart p)))
removed-Linked m l xs e (y ∷ ys) c =
    let last = mem-prev m l xs e c.front in
    let n : m.next e ≡ y = c.back.0 in
    Linked-append (removed m e) l xs y ys (tail l)
      (Linked-retarget (removed m e) l xs e y c.front c.distinct_front (ground arith) (ground arith)
        (λ p h k. ground arith) (λ p h. ground (arith, c.apart p)))
      (Linked-frame (removed m e) y ys (tail l) c.back.2
        (λ p h. ground (arith, has-append p ys (tail l ∷ []), c.apart (m.prev e)))
        (λ p h. ground (arith, has-append p ys (tail l ∷ []), c.distinct_back)))

Distinct-remove :
    (xs : List Ptr) (e : Ptr) (ys : List Ptr)
    → Distinct (xs ++ e ∷ ys)
    → Distinct (xs ++ ys) × (has e (xs ++ ys) ≡ false)
Distinct-remove [] e ys d = (d.1, d.0)
Distinct-remove (x ∷ xs) e ys d =
    let r = Distinct-remove xs e ys d.1 in
    let cut : has x (xs ++ e ∷ ys) ≡ false = d.0 in
    (
      (ground (arith, has-append x xs ys, has-append x xs (e ∷ ys)), r.0),
      ground (arith, has-append x xs (e ∷ ys), r.1),
    )

-- What `list_remove` leaves: the other elements in their order, `e` outside of the list with its own
-- links as they were, and memory outside the list untouched.
pub record Removes (m : Mem) (l e : Ptr) (new : List Ptr) (m' : Mem) : Type 0 where
  pub list : IsList m' l new
  pub same : SameOutside (nodes l new) m m'
  pub out : has e (nodes l new) ≡ false

removed-Removes :
    (m : Mem) (l : Ptr) (xs : List Ptr) (e : Ptr) (ys : List Ptr)
    → IsList m l (xs ++ e ∷ ys)
    → Removes m l e (xs ++ ys) (removed m e)
removed-Removes m l xs e ys is =
    let c = IsList-Cut xs e ys is in
    let last = mem-prev m l xs e c.front in
    let cut = λ (p : Ptr). has-cut p l xs ys in
    let whole = λ (p : Ptr). has-cut p l xs (e ∷ ys) in
    let d =
      Distinct-remove (l ∷ xs) e (ys ++ tail l ∷ []) (Distinct-nodes l xs (e ∷ ys) is.distinct) in
    let n = first_next m e (tail l) ys c.back in
    let f : (has (m.next e) ys || (m.next e == tail l)) ≡ true =
      subst (λ p. (has p ys || (p == tail l)) ≡ true) (sym n) (first-mem ys (tail l)) in
    record {
      list = record {
        linked = removed-Linked m l xs e ys c;
        start = ground (arith, is.start, c.apart l, has-append l ys (tail l ∷ []));
        stop = ground (arith, is.stop, c.apart (m.prev e), has-append (tail l) ys (tail l ∷ []));
        distinct = subst (λ zs. Distinct (l ∷ zs)) (sym (append_assoc xs ys (tail l ∷ []))) d.0;
        real = ground (arith, is.real, cut null, whole null);
      };
      same = λ p h. ground (arith, cut p);
      out = subst (λ zs. has e (l ∷ zs) ≡ false) (sym (append_assoc xs ys (tail l ∷ []))) d.1;
    }

-- `list_remove` takes an element out of its list and returns the one that followed it.
pub list_remove_lem :
    (m : Mem) (l : Ptr) (xs : List Ptr) (e : Ptr) (ys : List Ptr)
    → IsList m l (xs ++ e ∷ ys)
    → (m' : Mem) × (list_remove e m ≡ ok (first ys (tail l)) m') × Removes m l e (xs ++ ys) m'
list_remove_lem m l xs e ys is =
    let c = IsList-Cut xs e ys is in
    let last = mem-prev m l xs e c.front in
    let whole = λ (p : Ptr). has-cut p l xs (e ∷ ys) in
    let n = first_next m e (tail l) ys c.back in
    let f : (has (m.next e) ys || (m.next e == tail l)) ≡ true =
      subst (λ p. (has p ys || (p == tail l)) ≡ true) (sym n) (first-mem ys (tail l)) in
    (
      removed m e,
      list_remove-ok m e (has-ne e null (nodes l (xs ++ e ∷ ys)) (ground (arith, whole e)) is.real)
            (has-ne (m.prev e) null (nodes l (xs ++ e ∷ ys)) (ground (arith, whole (m.prev e)))
              is.real)
            (has-ne (m.next e) null (nodes l (xs ++ e ∷ ys)) (ground (arith, whole (m.next e)))
              is.real)
          ∙ ap (λ p. ok p (removed m e)) n,
      removed-Removes m l xs e ys is,
    )

-- `list_empty` tells an empty list.
pub list_empty_lem :
    (m : Mem) (l : Ptr) (xs : List Ptr)
    → IsList m l xs
    → list_empty l m ≡ ok (elim xs [ [] ↦ true | _ ∷ _ ↦ false ]) m
unfolding list_empty
list_empty_lem m l [] is = ground (arith, real_list [] is)
list_empty_lem m l (x ∷ xs) is =
    ground (arith, real_list (x ∷ xs) is, is.distinct, has-append x xs (tail l ∷ []))

list_empty-cons :
    (m : Mem) (l : Ptr) (xs : List Ptr) (x : Ptr)
    → IsList m l (xs ++ x ∷ [])
    → list_empty l m ≡ ok false m
list_empty-cons m l [] x is = list_empty_lem m l (x ∷ []) is
list_empty-cons m l (y ∷ ys) x is = list_empty_lem m l (y ∷ ys ++ x ∷ []) is

-- `list_front` reads the first element.
pub list_front_lem :
    (m : Mem) (l x : Ptr) (xs : List Ptr) → IsList m l (x ∷ xs) → list_front l m ≡ ok x m
unfolding list_front
list_front_lem m l x xs is = rw (list_empty_lem m l (x ∷ xs) is, is.linked.0)

-- `list_pop_front` takes the first element off.
pub list_pop_front_lem :
    (m : Mem) (l x : Ptr) (xs : List Ptr)
    → IsList m l (x ∷ xs)
    → (m' : Mem) × (list_pop_front l m ≡ ok x m') × Removes m l x xs m'
unfolding list_pop_front
list_pop_front_lem m l x xs is =
    let (m', runs, done) = list_remove_lem m l [] x xs is in
    (m', rw (list_front_lem m l x xs is, runs), done)

-- On an empty list `list_pop_front` trips the assertion.
pub list_pop_front-empty : (m : Mem) (l : Ptr) → IsList m l [] → list_pop_front l m ≡ panic
unfolding list_pop_front list_front
list_pop_front-empty m l is = rw (list_empty_lem m l [] is)

-- `list_pop_back` takes the last element off.
pub list_pop_back_lem :
    (m : Mem) (l : Ptr) (xs : List Ptr) (x : Ptr)
    → IsList m l (xs ++ x ∷ [])
    → (m' : Mem) × (list_pop_back l m ≡ ok x m') × Removes m l x xs m'
unfolding list_pop_back list_back
list_pop_back_lem m l xs x is =
    let c = IsList-Cut xs x [] is in
    let (m', runs, done) = list_remove_lem m l xs x [] is in
    (
      m',
      rw (list_empty-cons m l xs x is, c.back.1, runs),
      subst (λ zs. Removes m l x zs m') (append-nil xs) done,
    )
