-- ===== src/KernelList/Lists.antt =====
-- What a `struct list` stands for: the addresses of its elements, front to back.
use mathlib.Core.Bool.{false≢true}
use cau_assignments.Base.{
  inl, inr, Bool-cases, ==_iff, ◌∙◌, sym, ◌≡◌, true, false, ◌||◌, List, [], ◌∷◌, ◌++◌, ◌==◌, arith,
  has, has-append, Distinct, subst, append_assoc,
}
use cau_assignments.KernelList.Memory.{Ptr, null, Mem}
use cau_assignments.KernelList.Ops.{head, tail}
use cau_assignments.KernelList.Segment.{Linked, Linked-frame, Linked-split}

-- The elements of a list with its two headers.
abbrev pub nodes : Ptr → List Ptr → List Ptr
nodes l xs = head l ∷ xs ++ tail l ∷ []

pub record IsList (m : Mem) (l : Ptr) (xs : List Ptr) : Type 0 where
  pub linked : Linked m (head l) xs (tail l)
  pub start : m.prev (head l) ≡ null
  pub stop : m.next (tail l) ≡ null
  pub distinct : Distinct (nodes l xs)
  pub real : has null (nodes l xs) ≡ false

-- The memories differ at most at the elements `ps`.
abbrev pub SameOutside : List Ptr → Mem → Mem → Type 0
SameOutside ps m m' = (p : Ptr) → has p ps ≡ false → (m'.prev p ≡ m.prev p) × (m'.next p ≡ m.next p)

abbrev pub Apart : List Ptr → List Ptr → Type 0
Apart ps qs = (p : Ptr) → has p ps ≡ true → has p qs ≡ false

-- The first of some elements, or what follows them.
abbrev pub first : List Ptr → Ptr → Ptr
first [] t = t
first (x ∷ xs) t = x

pub has-nodes :
    (p l : Ptr) (xs : List Ptr) → has p (nodes l xs) ≡ ((p == l) || (has p xs || (p == tail l)))
has-nodes p l xs = ground (arith, has-append p xs (tail l ∷ []))

-- A list survives any change that spares its own elements.
pub IsList-frame :
    {m : Mem} (m' : Mem) (l : Ptr) (xs ps : List Ptr)
    → IsList m l xs
    → SameOutside ps m m'
    → Apart (nodes l xs) ps
    → IsList m' l xs
IsList-frame m' l xs ps is same apart = record {
  linked =
      Linked-frame m' l xs (tail l) is.linked
        (λ p h. (same p (apart p (ground (arith, has-append p xs (tail l ∷ []))))).1)
        (λ p h. (same p (apart p (ground arith))).0);
  start = ground (arith, same l, apart l);
  stop = ground (arith, same (tail l), apart (tail l), has-append (tail l) xs (tail l ∷ []));
  distinct = is.distinct;
  real = is.real;
}

pub Distinct-append :
    (xs ys : List Ptr) → Distinct (xs ++ ys) → Distinct xs × Distinct ys × Apart xs ys
Distinct-append [] ys d = (tt, d, λ p h. cc)
Distinct-append (x ∷ xs) ys d =
    let r = Distinct-append xs ys d.1 in
    (
      (ground (arith, has-append x xs ys), r.0),
      r.1,
      λ p h. ground (arith, has-append x xs ys, r.2 p),
    )

pub Distinct-nodes :
    (l : Ptr) (xs ys : List Ptr)
    → Distinct (nodes l (xs ++ ys))
    → Distinct ((l ∷ xs) ++ (ys ++ tail l ∷ []))
Distinct-nodes l xs ys d = subst (λ zs. Distinct (l ∷ zs)) (append_assoc xs ys (tail l ∷ [])) d

-- A list cut in front of one of its elements.
pub record Cut (m : Mem) (l : Ptr) (xs : List Ptr) (y : Ptr) (ys : List Ptr) : Type 0 where
  pub front : Linked m l xs y
  pub back : Linked m y ys (tail l)
  pub distinct_front : Distinct (l ∷ xs)
  pub distinct_back : Distinct (y ∷ ys ++ tail l ∷ [])
  pub apart : Apart (l ∷ xs) (y ∷ ys ++ tail l ∷ [])

pub IsList-Cut :
    {m : Mem} {l : Ptr} (xs : List Ptr) (y : Ptr) (ys : List Ptr)
    → IsList m l (xs ++ y ∷ ys)
    → Cut m l xs y ys
IsList-Cut {m} {l} xs y ys is =
    let s = Linked-split m l xs y ys (tail l) is.linked in
    let d : Distinct ((l ∷ xs) ++ (y ∷ ys ++ tail l ∷ [])) =
      Distinct-nodes l xs (y ∷ ys) is.distinct in
    let r = Distinct-append (l ∷ xs) (y ∷ ys ++ tail l ∷ []) d in
    record { front = s.0; back = s.1; distinct_front = r.0; distinct_back = r.1; apart = r.2 }

pub first_next : (m : Mem) (a b : Ptr) (xs : List Ptr) → Linked m a xs b → m.next a ≡ first xs b
first_next m a b [] s = s.0
first_next m a b (x ∷ xs) s = s.0

-- No list stands at `NULL`.
pub real_list : {m : Mem} {l : Ptr} (xs : List Ptr) → IsList m l xs → (l == null) ≡ false
real_list {l} xs is = ground (arith, is.real)

pub has-ne : (p q : Ptr) (xs : List Ptr) → has p xs ≡ true → has q xs ≡ false → (p == q) ≡ false
has-ne p q xs h k = elim (Bool-cases (p == q)) [
  | inl e ↦ absurd (false≢true (sym k ∙ subst (λ r. has r xs ≡ true) ((==_iff p q).0 e) h))
  | inr e ↦ e
]

-- Membership among the nodes of a list cut in two.
pub has-cut :
    (p l : Ptr) (xs ys : List Ptr)
    → has p (nodes l (xs ++ ys)) ≡ ((p == l) || (has p xs || (has p ys || (p == tail l))))
has-cut p l xs ys = ground (arith, has-nodes p l (xs ++ ys), has-append p xs ys)

pub first-mem : (ys : List Ptr) (t : Ptr) → (has (first ys t) ys || (first ys t == t)) ≡ true
first-mem [] t = ground arith
first-mem (y ∷ ys) t = ground arith
