-- ===== src/Relatives/Ops.antt =====
-- The tree and the stack of node.h and stack.h, and the input loop of main.c. Undefined behaviour
-- (a null or dangling pointer, an index below the array) counts as a panic. No two pointers of the
-- program lead to the same node, so the nodes are a tree, and a pointer into it is the way from the
-- head.
use cau_assignments.Base.{
  ℕ, ◌+◌, Bool, true, false, not, ◌||◌, Option, none, some, List, [], ◌∷◌, ◌++◌, ◌==◌,
  if◌then◌else◌,
}
use cau_assignments.Base.Run.{Cmd, ok, panic, pure, ◌>>=◌, ◌>>◌, assert, modify}

-- `node *`: `null`, or a node with its name, its father and its mother.
pub data Tree : Type 0 where
  null : Tree
  node : ℕ → Tree → Tree → Tree

pub data Side : Type 0 where
  father mother : Side

-- The variables of `main` and what was printed. `stale` says that the block of `stack` was moved by
-- `realloc`, whose result does not reach `main`; `calls` counts the calls of `realloc`.
pub record State : Type 0 where
  pub head : Tree
  pub stack : List ℕ
  pub stale : Bool
  pub calls : ℕ
  pub printed : List ℕ

abbrev pub is_null : Tree → Bool
is_null null = true
is_null (node x f m) = false

-- Characters
abbrev pub letter_f : ℕ
letter_f = 70

abbrev pub letter_m : ℕ
letter_m = 77

abbrev pub question : ℕ
question = 63

abbrev pub dash : ℕ
dash = 45

abbrev pub newline : ℕ
newline = 10

abbrev pub blank : ℕ
blank = 32

-- `initNode (name, NULL, NULL)`
abbrev pub init_node : ℕ → Tree → Tree → Tree
init_node = node

-- The choice between the results of the two sides.
abbrev pub through : Side → Option (List Side) → Option (List Side)
through s none = none
through s (some p) = some (s ∷ p)

abbrev pub or_else : Option (List Side) → Option (List Side) → Option (List Side)
or_else none q = q
or_else (some p) q = some p

-- The function is called on nodes only: both calls of itself and those of `main` exclude `NULL`.
unfoldable pub find_node : ℕ → Tree → Option (List Side)
find_node c null = none
find_node c (node x f m) =
    let in_father = through father (find_node c f) in
    let in_mother = through mother (find_node c m) in
    if x == c then some [] else or_else in_father in_mother

-- `printf ("%c", ...)`
abbrev pub print : List ℕ → Cmd State (Unit {0})
print cs = modify (λ s. record s { printed = s.printed ++ cs })

-- The text of `stackPrint`. Of an empty stack it reads the element -1.
abbrev pub joined : List ℕ → List ℕ
joined [] = []
joined (x ∷ []) = x ∷ newline ∷ []
joined (x ∷ y ∷ ys) = x ∷ dash ∷ joined (y ∷ ys)

abbrev pub is_empty : List ℕ → Bool
is_empty [] = true
is_empty (x ∷ xs) = false

unfoldable pub stack_print : Cmd State (Unit {0})
stack_print s = (do assert (not s.stale); assert (not (is_empty s.stack)); print (joined s.stack)) s

abbrev pub drop_last : List ℕ → List ℕ
drop_last [] = []
drop_last (x ∷ []) = []
drop_last (x ∷ y ∷ ys) = x ∷ drop_last (y ∷ ys)

unfoldable pub traversal : Tree → List ℕ
traversal null = []
traversal (node x f m) = x ∷ traversal f ++ traversal m

unfoldable pub print_tree : Tree → Cmd State (Unit {0})
print_tree t = do assert (not (is_null t)); print (traversal t); print (newline ∷ [])

-- `moved k` says whether the call number `k` of `realloc` moves the block.
module _ (moved : ℕ → Bool) where
  abbrev reallocate : List ℕ → State → State
  reallocate xs s = record s { stack = xs; stale = moved s.calls; calls = s.calls + 1 }

  unfoldable pub stack_push : ℕ → Cmd State (Unit {0})
  stack_push c s = (do assert (not s.stale); modify (reallocate (s.stack ++ c ∷ []))) s

  -- The result is not used by the program.
  unfoldable pub stack_pop : Cmd State (Unit {0})
  stack_pop s =
      (do
        assert (not s.stale)
        assert (not (is_empty s.stack))
        modify (reallocate (drop_last s.stack)))
        s

  unfoldable pub print_relation : ℕ → Tree → Cmd State (Option (List Side))
  print_relation c null = λ s. panic
  print_relation c (node x f m) = do
    stack_push x
    if x == c then (do stack_print; pure (some [])) else do
      in_father ← (if is_null f then pure none else do stack_push letter_f; print_relation c f)
      elim in_father [
        | some p ↦ pure (some (father ∷ p))
        | none ↦ do
          in_mother ← (if is_null m then pure none else do stack_push letter_m; print_relation c m)
          elim in_mother [
            | some p ↦ pure (some (mother ∷ p))
            | none ↦ do stack_pop; stack_pop; pure none
          ]
      ]

-- The subtree that a way leads to.
abbrev pub subtree : List Side → Tree → Tree
subtree p null = null
subtree [] (node x f m) = node x f m
subtree (father ∷ p) (node x f m) = subtree p f
subtree (mother ∷ p) (node x f m) = subtree p m

abbrev pub set_side : Side → Tree → Tree → Tree
set_side s y null = null
set_side father y (node x f m) = node x y m
set_side mother y (node x f m) = node x f y

-- The tree after `->father = y` or `->mother = y` on the node that a way leads to.
unfoldable pub attach : Side → Tree → List Side → Tree → Tree
attach s y [] t = set_side s y t
attach s y (d ∷ p) null = null
attach s y (father ∷ p) (node x f m) = node x (attach s y p f) m
attach s y (mother ∷ p) (node x f m) = node x f (attach s y p m)

-- The five characters of a line.
pub record Input : Type 0 where
  pub from : ℕ
  pub dash_before : ℕ
  pub relation : ℕ
  pub dash_behind : ℕ
  pub to : ℕ

abbrev pub is_accepted : Input → Bool
is_accepted i = not (
    (i.from == blank)
    || not (i.dash_before == dash)
    || (i.relation == blank)
    || not (i.dash_behind == dash)
    || (i.to == blank))

-- `switch (input[2])`
abbrev pub switch {ℓ} : {A : Type ℓ} → ℕ → A → A → A → A → A
switch r f m q other =
    if r == letter_f then f else (if r == letter_m then m else (if r == question then q else other))

abbrev set_head : Tree → Cmd State (Unit {0})
set_head t = modify (λ s. record s { head = t })

-- `findNode (...)->`, which needs a node.
abbrev found : Option (List Side) → Cmd State (List Side)
found none = λ s. panic
found (some p) = pure p

-- The three parts of the loop of `main`: the first line, a new head, and a line about the tree.
unfoldable pub begin_tree : Input → Cmd State (Unit {0})
begin_tree i =
    let leaf = init_node i.to null null in
    let t = switch i.relation (init_node i.from leaf null) (init_node i.from null leaf) null null in
    do set_head t; print_tree t

unfoldable pub extend_head : Input → Tree → Cmd State (Unit {0})
extend_head i head =
    let t = switch i.relation (init_node i.from head null) (init_node i.from null head) head head in
    do set_head t; print_tree t

unfoldable pub add_parent : Side → Input → Tree → Cmd State (Unit {0})
add_parent s i head = do
  p ← found (find_node i.from head)
  t ← pure (attach s (init_node i.to null null) p head)
  set_head t
  print_tree t

module _ (moved : ℕ → Bool) where
  unfoldable pub show_relation : Input → Tree → Cmd State (Unit {0})
  show_relation i head = do
    p ← found (find_node i.from head)
    print_relation moved i.to (subtree p head)
    (λ s. assert (not s.stale) s)
    modify (λ s. record s { stack = [] })

  unfoldable pub line : Input → Cmd State (Unit {0})
  line i s = elim (is_accepted i) [
    | false ↦ ok tt s
    | true ↦ elim s.head [
      | null ↦ begin_tree i s
      | node x f m ↦
          (if x == i.to
              then extend_head i s.head
              else switch i.relation (add_parent father i s.head) (add_parent mother i s.head)
                  (show_relation i s.head) (pure tt))
            s
    ]
  ]
