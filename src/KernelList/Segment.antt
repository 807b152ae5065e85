-- ===== src/KernelList/Segment.antt =====
-- Segments of a doubly linked list: the elements that the links run through between two elements.
use cau_assignments.Base.{◌≡◌, true, false, List, [], ◌∷◌, ◌++◌, ◌==◌, arith, has, Distinct}
use cau_assignments.KernelList.Memory.{Ptr, Mem}

-- From `a` the `next` links run through `xs` to `b`, and the `prev` links run back.
abbrev pub Linked : Mem → Ptr → List Ptr → Ptr → Type 0
Linked m a [] b = (m.next a ≡ b) × (m.prev b ≡ a)
Linked m a (x ∷ xs) b = (m.next a ≡ x) × (m.prev x ≡ a) × Linked m x xs b

-- A segment depends on the `next` links of all but its end, and on the `prev` links of all but its
-- start.
pub Linked-frame :
    {m : Mem} (m' : Mem) (a : Ptr) (xs : List Ptr) (b : Ptr)
    → Linked m a xs b
    → ((p : Ptr) → has p (a ∷ xs) ≡ true → m'.next p ≡ m.next p)
    → ((p : Ptr) → has p (xs ++ b ∷ []) ≡ true → m'.prev p ≡ m.prev p)
    → Linked m' a xs b
Linked-frame m' a [] b s n p = (ground (arith, n a), ground (arith, p b))
Linked-frame m' a (x ∷ xs) b s n p = (
  ground (arith, n a),
  ground (arith, p x),
  Linked-frame m' x xs b s.2 (λ q h. n q (ground arith)) (λ q h. p q (ground arith)),
)

-- Two segments that meet make one.
pub Linked-append :
    (m : Mem) (a : Ptr) (xs : List Ptr) (b : Ptr) (ys : List Ptr) (c : Ptr)
    → Linked m a xs b
    → Linked m b ys c
    → Linked m a (xs ++ b ∷ ys) c
Linked-append m a [] b ys c s t = (s.0, s.1, t)
Linked-append m a (x ∷ xs) b ys c s t = (s.0, s.1, Linked-append m x xs b ys c s.2 t)

-- A segment splits at each of its elements.
pub Linked-split :
    (m : Mem) (a : Ptr) (xs : List Ptr) (b : Ptr) (ys : List Ptr) (c : Ptr)
    → Linked m a (xs ++ b ∷ ys) c
    → Linked m a xs b × Linked m b ys c
Linked-split m a [] b ys c s = ((s.0, s.1), s.2)
Linked-split m a (x ∷ xs) b ys c s =
    let r = Linked-split m x xs b ys c s.2 in ((s.0, s.1, r.0), r.1)

-- What stands before the end of a segment is one of its elements, or its start.
pub mem-prev :
    (m : Mem) (a : Ptr) (xs : List Ptr) (b : Ptr)
    → Linked m a xs b
    → (has (m.prev b) (a ∷ xs) ≡ true) × (m.next (m.prev b) ≡ b)
mem-prev m a [] b s = (ground arith, ground arith)
mem-prev m a (x ∷ xs) b s = let r = mem-prev m x xs b s.2 in (ground arith, r.1)

-- Relinking the last element makes the segment end elsewhere.
pub Linked-retarget :
    {m : Mem} (m' : Mem) (a : Ptr) (xs : List Ptr) (b c : Ptr)
    → Linked m a xs b
    → Distinct (a ∷ xs)
    → m'.next (m.prev b) ≡ c
    → m'.prev c ≡ m.prev b
    → ((p : Ptr) → has p (a ∷ xs) ≡ true → (p == m.prev b) ≡ false → m'.next p ≡ m.next p)
    → ((p : Ptr) → has p xs ≡ true → m'.prev p ≡ m.prev p)
    → Linked m' a xs c
Linked-retarget m' a [] b c s d n p fn fp = (ground arith, ground arith)
Linked-retarget {m} m' a (x ∷ xs) b c s d n p fn fp =
    let last = mem-prev m x xs b s.2 in
    let apart : (a == m.prev b) ≡ false = ground arith in
    (
      ground (arith, fn a),
      ground (arith, fp x),
      Linked-retarget m' x xs b c s.2 d.1 n p (λ q h. fn q (ground arith))
          (λ q h. fp q (ground arith)),
    )
