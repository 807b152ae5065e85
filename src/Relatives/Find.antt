-- ===== src/Relatives/Find.antt =====
-- `findNode` finds the first node of a name in the order in which `traversal` prints.
use cau_assignments.Base.{
  ℕ, ◌≡◌, refl, Bool, true, false, Option, none, some, List, [], ◌∷◌, ◌++◌, ◌==◌, arith, has,
  has-append, if◌then◌else◌, inl, inr, Bool-cases, subst,
}
use cau_assignments.Relatives.Ops.{
  Tree, null, node, Side, father, mother, find_node, traversal, subtree, through, or_else,
}

abbrev pub is_named : ℕ → Tree → Bool
is_named c null = false
is_named c (node x f m) = x == c

-- The names that `traversal` prints before it comes to the node at a way.
abbrev pub visited : List Side → Tree → List ℕ
visited p null = []
visited [] (node x f m) = []
visited (father ∷ p) (node x f m) = x ∷ visited p f
visited (mother ∷ p) (node x f m) = x ∷ traversal f ++ visited p m

-- What the result of `findNode` says.
pub record Found (c : ℕ) (t : Tree) (p : List Side) : Type 0 where
  pub named : is_named c (subtree p t) ≡ true
  pub first : has c (visited p t) ≡ false

abbrev pub Finds : ℕ → Tree → Option (List Side) → Type 0
Finds c t none = has c (traversal t) ≡ false
Finds c t (some p) = Found c t p

step_mother :
    (c x : ℕ) (f m : Tree) (r : Option (List Side))
    → (x == c) ≡ false
    → has c (traversal f) ≡ false
    → Finds c m r
    → Finds c (node x f m) (through mother r)
unfolding traversal
step_mother c x f m none ne hf h = ground (arith, has-append c (traversal f) (traversal m))
step_mother c x f m (some p) ne hf h =
    let n = h.named in
    let g = h.first in
    record { named = n; first = ground (arith, has-append c (traversal f) (visited p m)) }

step_node :
    (c x : ℕ) (f m : Tree) (r q : Option (List Side))
    → (x == c) ≡ false
    → Finds c f r
    → Finds c m q
    → Finds c (node x f m) (or_else (through father r) (through mother q))
step_node c x f m none q ne hf hm = step_mother c x f m q ne hf hm
step_node c x f m (some p) q ne hf hm =
    let n = hf.named in let g = hf.first in record { named = n; first = ground arith }

-- `findNode` returns the node of the given name that `traversal` prints first, and `NULL` only if
-- no node has the name.
pub find_node_lem : (c : ℕ) (t : Tree) → Finds c t (find_node c t)
unfolding find_node traversal
find_node_lem c null = refl
find_node_lem c (node x f m) = elim (Bool-cases (x == c)) [
  | inl e ↦ rw e (record { named = e; first = refl })
  | inr e ↦
      rw e (
        step_node c x f m (find_node c f) (find_node c m) e (find_node_lem c f) (find_node_lem c m))
]

-- The converse of the three branches of `findNode`.
from_none :
    (r q : Option (List Side))
    → or_else (through father r) (through mother q) ≡ none
    → (r ≡ none) × (q ≡ none)
from_none none none h = (refl, refl)
from_none none (some p) h = cc
from_none (some p) q h = cc

from_father :
    (r q : Option (List Side)) (p : List Side)
    → or_else (through father r) (through mother q) ≡ some (father ∷ p)
    → r ≡ some p
from_father none none p h = cc
from_father none (some p') p h = cc
from_father (some p') q p h = cc

from_mother :
    (r q : Option (List Side)) (p : List Side)
    → or_else (through father r) (through mother q) ≡ some (mother ∷ p)
    → (r ≡ none) × (q ≡ some p)
from_mother none none p h = cc
from_mother none (some p') p h = (refl, cc)
from_mother (some p') q p h = cc

from_root :
    (r q : Option (List Side))
    → or_else (through father r) (through mother q) ≡ some []
    → true ≡ false
from_root none none h = cc
from_root none (some p') h = cc
from_root (some p') q h = cc

module _ (c x : ℕ) (f m : Tree) where
  abbrev both : Option (List Side)
  both = or_else (through father (find_node c f)) (through mother (find_node c m))

  find_other :
      (r : Option (List Side))
      → (if x == c then some [] else both) ≡ r
      → (x == c) ≡ false
      → both ≡ r
  find_other r h ne = subst (λ k. (if k then some [] else both) ≡ r) ne h

  pub find_none :
      find_node c (node x f m) ≡ none
      → ((x == c) ≡ false) × (find_node c f ≡ none) × (find_node c m ≡ none)
  unfolding find_node
  find_none h = elim (Bool-cases (x == c)) [
    | inl e ↦ absurd (ground arith)
    | inr e ↦
        let r = from_none (find_node c f) (find_node c m) (find_other none h e) in (e, r.0, r.1)
  ]

  pub find_father :
      (p : List Side)
      → find_node c (node x f m) ≡ some (father ∷ p)
      → ((x == c) ≡ false) × (find_node c f ≡ some p)
  unfolding find_node
  find_father p h = elim (Bool-cases (x == c)) [
    | inl e ↦ absurd (ground arith)
    | inr e ↦
        (e, from_father (find_node c f) (find_node c m) p (find_other (some (father ∷ p)) h e))
  ]

  pub find_mother :
      (p : List Side)
      → find_node c (node x f m) ≡ some (mother ∷ p)
      → ((x == c) ≡ false) × (find_node c f ≡ none) × (find_node c m ≡ some p)
  unfolding find_node
  find_mother p h = elim (Bool-cases (x == c)) [
    | inl e ↦ absurd (ground arith)
    | inr e ↦
        let r =
          from_mother (find_node c f) (find_node c m) p (find_other (some (mother ∷ p)) h e) in
        (e, r.0, r.1)
  ]

  pub find_root : find_node c (node x f m) ≡ some [] → (x == c) ≡ true
  unfolding find_node
  find_root h = elim (Bool-cases (x == c)) [
    | inl e ↦ e
    | inr e ↦
        absurd (let k = from_root (find_node c f) (find_node c m) (find_other (some []) h e) in cc)
  ]
