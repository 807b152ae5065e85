-- ===== src/Relatives/Attach.antt =====
-- The tree after `findNode (...)->father = ...` or `->mother = ...`.
use cau_assignments.Base.{ℕ, ◌≡◌, refl, true, false, none, some, List, [], ◌∷◌, ◌==◌, arith, ap}
use cau_assignments.Relatives.Ops.{
  Tree, null, node, Side, father, mother, find_node, subtree, attach, set_side,
}
use cau_assignments.Relatives.Find.{find_father, find_mother, find_root}

find-here : (c x : ℕ) (f m : Tree) → (x == c) ≡ true → find_node c (node x f m) ≡ some []
unfolding find_node
find-here c x f m e = rw e refl

find-in_father :
    (c x : ℕ) (f m : Tree) (p : List Side)
    → (x == c) ≡ false
    → find_node c f ≡ some p
    → find_node c (node x f m) ≡ some (father ∷ p)
unfolding find_node
find-in_father c x f m p e h = rw (e, h) refl

find-in_mother :
    (c x : ℕ) (f m : Tree) (p : List Side)
    → (x == c) ≡ false
    → find_node c f ≡ none
    → find_node c m ≡ some p
    → find_node c (node x f m) ≡ some (mother ∷ p)
unfolding find_node
find-in_mother c x f m p e h k = rw (e, h, k) refl

-- The node to which a parent was added is found at the same place, and has the new parent.
pub find_node-attach :
    (s : Side) (y : Tree) (c : ℕ) (p : List Side) (t : Tree)
    → find_node c t ≡ some p
    → (find_node c (attach s y p t) ≡ some p)
      × (subtree p (attach s y p t) ≡ set_side s y (subtree p t))
unfolding attach find_node
find_node-attach s y c p null h = cc
find_node-attach father y c [] (node x f m) h = (find-here c x y m (find_root c x f m h), refl)
find_node-attach mother y c [] (node x f m) h = (find-here c x f y (find_root c x f m h), refl)
find_node-attach s y c (father ∷ p) (node x f m) h =
    let (ne, there) = find_father c x f m p h in
    let (again, sub) = find_node-attach s y c p f there in
    (find-in_father c x (attach s y p f) m p ne again, sub)
find_node-attach s y c (mother ∷ p) (node x f m) h =
    let (ne, away, there) = find_mother c x f m p h in
    let (again, sub) = find_node-attach s y c p m there in
    (find-in_mother c x f (attach s y p m) p ne away again, sub)

-- A node that `findNode` finds.
pub find-subtree :
    (c : ℕ) (p : List Side) (t : Tree)
    → find_node c t ≡ some p
    → (f m : Tree) × (subtree p t ≡ node c f m)
unfolding find_node
find-subtree c p null h = cc
find-subtree c [] (node x f m) h =
    let e = find_root c x f m h in (f, m, ap (λ z. node z f m) (ground arith))
find-subtree c (father ∷ p) (node x f m) h = find-subtree c p f ((find_father c x f m p h).1)
find-subtree c (mother ∷ p) (node x f m) h = find-subtree c p m ((find_mother c x f m p h).2)

pub attach-root :
    (s : Side) (y : Tree) (p : List Side) (x : ℕ) (f m : Tree)
    → (f' m' : Tree) × (attach s y p (node x f m) ≡ node x f' m')
unfolding attach
attach-root father y [] x f m = (y, m, refl)
attach-root mother y [] x f m = (f, y, refl)
attach-root s y (father ∷ p) x f m = (attach s y p f, m, refl)
attach-root s y (mother ∷ p) x f m = (f, attach s y p m, refl)
