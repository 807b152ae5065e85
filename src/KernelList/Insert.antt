-- ===== src/KernelList/Insert.antt =====
-- `list_insert`, `list_push_front` and `list_push_back` put an element where they say.
use cau_assignments.Base.{
  ◌≡◌, true, false, ◌||◌, ◌≢◌, List, [], ◌∷◌, ◌++◌, ◌==◌, arith, has, has-append, Distinct,
  append-nil, append_assoc, subst, sym,
}
use cau_assignments.Base.Run.{ok}
use cau_assignments.KernelList.Memory.{Ptr, null, Mem, with_prev, with_next}
use cau_assignments.KernelList.Ops.{tail, list_insert, list_push_front, list_push_back, list_init}
use cau_assignments.KernelList.Segment.{
  Linked, Linked-frame, Linked-append, Linked-retarget, mem-prev,
}
use cau_assignments.KernelList.Lists.{
  nodes, IsList, SameOutside, Apart, first, has-nodes, has-cut, first_next, real_list, has-ne,
  Distinct-append, Distinct-nodes, IsList-Cut,
}

-- The memory after `list_insert (b, e)`.
abbrev pub inserted : Mem → Ptr → Ptr → Mem
inserted m b e = with_prev (with_next (with_next (with_prev m e (m.prev b)) e b) (m.prev b) e) b e

-- `e` is no element of the list, no header of it and not `NULL`.
abbrev pub Fresh : Ptr → Ptr → List Ptr → Type 0
Fresh e l xs = (has e (nodes l xs) ≡ false) × (e ≢ null)

-- The part in front of the new element.
inserted-Linked :
    (m : Mem) (a : Ptr) (xs : List Ptr) (b e : Ptr)
    → Linked m a xs b
    → Distinct (a ∷ xs)
    → has b (a ∷ xs) ≡ false
    → has e (a ∷ xs) ≡ false
    → (e == b) ≡ false
    → Linked (inserted m b e) a xs e
inserted-Linked m a xs b e s d hb he ne =
    let last = mem-prev m a xs b s in
    Linked-retarget (inserted m b e) a xs b e s d (ground arith) (ground arith)
      (λ p h k. ground arith) (λ p h. ground arith)

list_insert-ok :
    (m : Mem) (b e : Ptr)
    → (b == null) ≡ false
    → (m.prev b == null) ≡ false
    → (e == b) ≡ false
    → (e == null) ≡ false
    → list_insert b e m ≡ ok tt (inserted m b e)
unfolding list_insert
list_insert-ok m b e h1 h2 h3 h4 = ground arith

Distinct-insert :
    (xs ys : List Ptr) (e : Ptr)
    → Distinct (xs ++ ys)
    → has e (xs ++ ys) ≡ false
    → Distinct (xs ++ e ∷ ys)
Distinct-insert [] ys e d h = (h, d)
Distinct-insert (x ∷ xs) ys e d h = (
  ground (arith, has-append x xs ys, has-append x xs (e ∷ ys)),
  Distinct-insert xs ys e d.1 (ground arith),
)

-- The new element stands between `xs` and what follows, `b`.
inserted-whole :
    (m : Mem) (l : Ptr) (xs : List Ptr) (b e t : Ptr)
    → Linked m l xs b
    → Distinct (l ∷ xs)
    → has b (l ∷ xs) ≡ false
    → has e (l ∷ xs) ≡ false
    → (e == b) ≡ false
    → (ys : List Ptr) → Linked m b ys t
    → Distinct (b ∷ ys ++ t ∷ [])
    → Apart (l ∷ xs) (b ∷ ys ++ t ∷ [])
    → has e (b ∷ ys ++ t ∷ []) ≡ false
    → Linked (inserted m b e) l (xs ++ e ∷ b ∷ ys) t
inserted-whole m l xs b e t s d hb he ne ys s' d' ap hy =
    let last = mem-prev m l xs b s in
    Linked-append (inserted m b e) l xs e (b ∷ ys) t (inserted-Linked m l xs b e s d hb he ne) (
      ground arith,
      ground arith,
      Linked-frame (inserted m b e) b ys t s'
          (λ p h. ground (arith, has-append p ys (t ∷ []), ap p, ap (m.prev b)))
          (λ p h. ground (arith, has-append p ys (t ∷ []))),
    )

-- What `list_insert` does to the memory `m` and to the list at `l`.
pub record Inserts (m : Mem) (l e : Ptr) (old new : List Ptr) (m' : Mem) : Type 0 where
  pub list : IsList m' l new
  pub same : SameOutside (e ∷ nodes l old) m m'

inserted-Inserts :
    (m : Mem) (l : Ptr) (xs : List Ptr) (b e : Ptr) (ys : List Ptr)
    → IsList m l (xs ++ ys)
    → Fresh e l (xs ++ ys)
    → (b == l) ≡ false
    → (has b ys || (b == tail l)) ≡ true
    → has (m.prev b) (l ∷ xs) ≡ true
    → Apart (l ∷ xs) (ys ++ tail l ∷ [])
    → Linked (inserted m b e) l (xs ++ e ∷ ys) (tail l)
    → Inserts m l e (xs ++ ys) (xs ++ e ∷ ys) (inserted m b e)
inserted-Inserts m l xs b e ys is fresh hb hm hp ap linked = record {
  list = record {
    linked = linked;
    start = ground (arith, is.start, has-nodes e l (xs ++ ys));
    stop = ground (
      arith,
      is.stop,
      has-nodes e l (xs ++ ys),
      ap (tail l),
      has-append (tail l) ys (tail l ∷ []),
    );
    distinct =
        subst (λ zs. Distinct (l ∷ zs)) (sym (append_assoc xs (e ∷ ys) (tail l ∷ [])))
          (Distinct-insert (l ∷ xs) (ys ++ tail l ∷ []) e (Distinct-nodes l xs ys is.distinct) (
            ground (
              arith,
              has-cut e l xs ys,
              has-append e xs (ys ++ tail l ∷ []),
              has-append e ys (tail l ∷ []),
            )));
    real = ground (arith, is.real, has-cut null l xs ys, has-cut null l xs (e ∷ ys));
  };
  same = λ p h. ground (arith, has-cut p l xs ys);
}

-- The facts about `before`, `e` and what stands in front of them.
record Slot (m : Mem) (l : Ptr) (xs : List Ptr) (b e : Ptr) : Type 0 where
  real : (b == null) ≡ false
  real_prev : (m.prev b == null) ≡ false
  ne : (e == b) ≡ false
  real_new : (e == null) ≡ false
  ne_head : (b == l) ≡ false
  out : has b (l ∷ xs) ≡ false
  out_new : has e (l ∷ xs) ≡ false
  last : has (m.prev b) (l ∷ xs) ≡ true

Slot_lem :
    (m : Mem) (l : Ptr) (xs : List Ptr) (b : Ptr) (ys : List Ptr) (e : Ptr)
    → Linked m l xs b
    → has null (nodes l (xs ++ ys)) ≡ false
    → Fresh e l (xs ++ ys)
    → (has b ys || (b == tail l)) ≡ true
    → has b (l ∷ xs) ≡ false
    → Slot m l xs b e
Slot_lem m l xs b ys e s real fresh hb out =
    let last = mem-prev m l xs b s in
    let cut = λ (p : Ptr). has-cut p l xs ys in
    let whole : has b (nodes l (xs ++ ys)) ≡ true = ground (arith, cut b) in
    let front : has (m.prev b) (nodes l (xs ++ ys)) ≡ true = ground (arith, cut (m.prev b)) in
    record {
      real = has-ne b null (nodes l (xs ++ ys)) whole real;
      real_prev = has-ne (m.prev b) null (nodes l (xs ++ ys)) front real;
      ne = let k = has-ne b e (nodes l (xs ++ ys)) whole fresh.0 in ground arith;
      real_new = ground arith;
      ne_head = ground arith;
      out = out;
      out_new = ground (arith, cut e);
      last = last.0;
    }

-- `list_insert (before, e)` puts a fresh element right in front of `before`, an element of the list
-- or its tail; the other elements keep their order, and memory outside the list is untouched.
pub list_insert_lem :
    (m : Mem) (l : Ptr) (xs ys : List Ptr) (e : Ptr)
    → IsList m l (xs ++ ys)
    → Fresh e l (xs ++ ys)
    → (m' : Mem) × (list_insert (first ys (tail l)) e m ≡ ok tt m')
      × Inserts m l e (xs ++ ys) (xs ++ e ∷ ys) m'
list_insert_lem m l xs [] e is fresh =
    let is' : IsList m l xs = subst (IsList m l) (append-nil xs) is in
    let d = Distinct-append (l ∷ xs) (tail l ∷ []) is'.distinct in
    let t_out : has (tail l) (l ∷ xs) ≡ false = ground (arith, d.2 (tail l)) in
    let k = Slot_lem m l xs (tail l) [] e is'.linked is.real fresh (ground arith) t_out in
    let apart = has-ne (m.prev (tail l)) e (l ∷ xs) k.last k.out_new in
    (
      inserted m (tail l) e,
      list_insert-ok m (tail l) e k.real k.real_prev k.ne k.real_new,
      inserted-Inserts m l xs (tail l) e [] is fresh k.ne_head (ground arith) k.last d.2 (
          Linked-append (inserted m (tail l) e) l xs e [] (tail l)
            (inserted-Linked m l xs (tail l) e is'.linked d.0 k.out k.out_new k.ne)
            (ground arith, ground arith)),
    )
list_insert_lem m l xs (y ∷ ys) e is fresh =
    let c = IsList-Cut xs y ys is in
    let y_out : has y (l ∷ xs) ≡ false = ground (arith, c.apart y) in
    let k = Slot_lem m l xs y (y ∷ ys) e c.front is.real fresh (ground arith) y_out in
    (
      inserted m y e,
      list_insert-ok m y e k.real k.real_prev k.ne k.real_new,
      inserted-Inserts m l xs y e (y ∷ ys) is fresh k.ne_head (ground arith) k.last c.apart (
          inserted-whole m l xs y e (tail l) c.front c.distinct_front k.out k.out_new k.ne ys c.back
            c.distinct_back c.apart
            (ground (arith, has-cut e l xs (y ∷ ys), has-append e ys (tail l ∷ [])))),
    )

-- `list_push_back` appends a fresh element.
pub list_push_back_lem :
    (m : Mem) (l : Ptr) (xs : List Ptr) (e : Ptr)
    → IsList m l xs
    → Fresh e l xs
    → (m' : Mem) × (list_push_back l e m ≡ ok tt m') × Inserts m l e xs (xs ++ e ∷ []) m'
unfolding list_push_back
list_push_back_lem m l xs e is fresh =
    let (m', runs, done) =
      subst
        (λ zs.
          IsList m l zs
          → Fresh e l zs
          → (m' : Mem) × (list_insert (tail l) e m ≡ ok tt m') × Inserts m l e zs (xs ++ e ∷ []) m')
        (append-nil xs) (list_insert_lem m l xs [] e) is fresh in
    (m', rw (real_list xs is) runs, done)

-- `list_push_front` puts a fresh element in front.
pub list_push_front_lem :
    (m : Mem) (l : Ptr) (xs : List Ptr) (e : Ptr)
    → IsList m l xs
    → Fresh e l xs
    → (m' : Mem) × (list_push_front l e m ≡ ok tt m') × Inserts m l e xs (e ∷ xs) m'
unfolding list_push_front
list_push_front_lem m l xs e is fresh =
    let (m', runs, done) = list_insert_lem m l [] xs e is fresh in
    (m', rw (real_list xs is, first_next m l (tail l) xs is.linked) runs, done)

-- `list_init` makes the list empty, whatever stood at its headers, and writes nowhere else.
pub list_init_lem :
    (m : Mem) (l : Ptr)
    → l ≢ null
    → (m' : Mem) × (list_init l m ≡ ok tt m') × IsList m' l [] × SameOutside (nodes l []) m m'
unfolding list_init
list_init_lem m l h = (
  with_next (with_prev (with_next (with_prev m l null) l (tail l)) (tail l) l) (tail l) null,
  ground arith,
  record {
    linked = ground arith;
    start = ground arith;
    stop = ground arith;
    distinct = ground arith;
    real = ground arith;
  },
  λ p k. ground arith,
)
