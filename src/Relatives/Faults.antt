-- ===== src/Relatives/Faults.antt =====
-- Inputs that main.c does not handle, and a `realloc` that moves the stack.
use cau_assignments.Base.{
  ℕ, ◌+◌, ◌++◌, ◌≡◌, refl, Bool, true, false, ◌||◌, none, [], ◌∷◌, ◌==◌, arith,
}
use cau_assignments.Base.Run.{ok, panic}
use cau_assignments.Relatives.Ops.{
  Tree, node, father, mother, State, letter_f, letter_m, question, find_node, is_accepted, Input,
  line, add_parent, show_relation, print_relation, stack_push, stack_pop, stack_print,
}

add_parent-panic :
    (i : Input) (t : Tree) (s : State)
    → find_node i.from t ≡ none
    → (add_parent father i t s ≡ panic) × (add_parent mother i t s ≡ panic)
unfolding add_parent
add_parent-panic i t s e = (rw e refl, rw e refl)

show_relation-panic :
    (moved : ℕ → Bool) (i : Input) (t : Tree) (s : State)
    → find_node i.from t ≡ none
    → show_relation moved i t s ≡ panic
unfolding show_relation
show_relation-panic moved i t s e = rw e refl

-- A line `a-F-b`, `a-M-b` or `a-?-b` whose name `a` is not in the tree, and whose name `b` is not at the
-- head, makes the program follow the null pointer that `findNode` returns.
pub line-panic :
    (moved : ℕ → Bool) (i : Input) (h : ℕ) (f m : Tree) (s : State)
    → s.head ≡ node h f m
    → is_accepted i ≡ true
    → ((i.relation == letter_f) || (i.relation == letter_m) || (i.relation == question)) ≡ true
    → (h == i.to) ≡ false
    → find_node i.from (node h f m) ≡ none
    → line moved i s ≡ panic
unfolding line
line-panic moved i h f m s at_head accepted relation other absent = ground (
  arith,
  add_parent-panic i (node h f m) s absent,
  show_relation-panic moved i (node h f m) s absent,
)

-- The pushes, pops and prints with a pointer that dangles.
stale-panic :
    (moved : ℕ → Bool) (c : ℕ) (s : State)
    → s.stale ≡ true
    → (stack_push moved c s ≡ panic) × (stack_pop moved s ≡ panic) × (stack_print s ≡ panic)
unfolding stack_push stack_pop stack_print
stale-panic moved c s e = (rw e refl, rw e refl, rw e refl)

push-moves :
    (moved : ℕ → Bool) (x : ℕ) (s : State)
    → s.stale ≡ false
    → moved s.calls ≡ true
    → (s' : State) × (stack_push moved x s ≡ ok tt s') × (s'.stale ≡ true)
unfolding stack_push
push-moves moved x s h e = (
  record s { stack = s.stack ++ x ∷ []; stale = moved s.calls; calls = s.calls + 1 },
  rw h refl,
  e,
)

relation-stale :
    (moved : ℕ → Bool) (c x : ℕ) (f m : Tree) (s s' : State)
    → stack_push moved x s ≡ ok tt s'
    → (stack_push moved letter_f s' ≡ panic)
      × (stack_push moved letter_m s' ≡ panic)
      × (stack_pop moved s' ≡ panic)
      × (stack_print s' ≡ panic)
    → print_relation moved c (node x f m) s ≡ panic
unfolding print_relation
relation-stale moved c x f m s s' pushes bad = let (b1, b2, b3, b4) = bad in ground (arith, pushes)

-- When `realloc` moves the block at the first push of `printRelation`, the next access to the stack uses
-- the pointer that the caller still has, to a block that was freed.
pub print_relation-stale :
    (moved : ℕ → Bool) (c x : ℕ) (f m : Tree) (s : State)
    → s.stale ≡ false
    → moved s.calls ≡ true
    → print_relation moved c (node x f m) s ≡ panic
print_relation-stale moved c x f m s fresh moves =
    let (s', pushes, stale) = push-moves moved x s fresh moves in
    let (f1, f2, f3) = stale-panic moved letter_f s' stale in
    let (m1, _, _) = stale-panic moved letter_m s' stale in
    relation-stale moved c x f m s s' pushes (f1, m1, f2, f3)
