-- ===== src/Relatives/Input.antt =====
-- Lines of input (main.c): a relation that was entered is printed when it is asked for.
use cau_assignments.Base.{
  ℕ, ◌≡◌, refl, Bool, true, false, none, some, List, [], ◌∷◌, ◌++◌, ◌==◌, arith, sym, ap, ◌∙◌,
  subst,
}
use cau_assignments.Base.Run.{ok, panic}
use cau_assignments.Relatives.Ops.{
  Tree, null, node, Side, father, State, is_null, letter_f, letter_m, question, dash, newline,
  joined, find_node, print_relation, subtree, attach, set_side, Input, is_accepted, blank, line,
  add_parent, show_relation, traversal, print_tree,
}
use cau_assignments.Relatives.Print.{
  trail, After, push_lem, pop_lem, pop-panic, relation-none, two_pops,
}
use cau_assignments.Relatives.Relation.{Prints, relation_lem, sides_none}
use cau_assignments.Relatives.Find.{find_none}
use cau_assignments.Relatives.Attach.{find_node-attach, find-subtree, attach-root}

-- With a `realloc` that leaves the block in place, `printRelation` on a node of the tree finds what
-- `findNode` finds, leaves the names and letters of the way on the stack, and prints the stack.
pub print_relation_lem :
    (moved : ℕ → Bool) (c x : ℕ) (f m : Tree) (s : State) (p : List Side)
    → ((k : ℕ) → moved k ≡ false)
    → s.stale ≡ false
    → find_node c (node x f m) ≡ some p
    → (s' : State) × (print_relation moved c (node x f m) s ≡ ok (some p) s')
      × After s
          (s.stack ++ trail p (node x f m))
          (s.printed ++ joined (s.stack ++ trail p (node x f m)))
          s'
print_relation_lem moved c x f m s p steady h e =
    subst (Prints moved steady c (node x f m) s) e (relation_lem moved steady c x f m s h)

pops-panic :
    (moved : ℕ → Bool) (steady : (k : ℕ) → moved k ≡ false) (x : ℕ) (s : State)
    → s.stale ≡ false
    → s.stack ≡ x ∷ []
    → two_pops moved steady s ≡ panic
pops-panic moved steady x s h e =
    let (s', one, a) = pop_lem moved steady [] x s h e in
    ground (arith, one, pop-panic moved steady s' a.stack_is)

-- With a `realloc` that leaves the block in place, and an empty stack, as `main` calls it,
-- `printRelation` of a name that is not in the tree pops once more than it pushed: it reads below the
-- array.
pub print_relation-panic :
    (moved : ℕ → Bool) (c x : ℕ) (f m : Tree) (s : State)
    → ((k : ℕ) → moved k ≡ false)
    → s.stale ≡ false
    → s.stack ≡ []
    → find_node c (node x f m) ≡ none
    → print_relation moved c (node x f m) s ≡ panic
print_relation-panic moved c x f m s steady h empty e =
    let (ne, left, right) = find_none c x f m e in
    let (s1, pushes, a) = push_lem moved steady x s h in
    let (s2, none_left, b) = sides_none moved steady c letter_f f s1 a.fresh left in
    let (s3, none_right, d) = sides_none moved steady c letter_m m s2 b.fresh right in
    relation-none moved steady c x f m s s1 s2 s3 ne pushes none_left none_right
    ∙ pops-panic moved steady x s3 d.fresh
        (d.stack_is ∙ b.stack_is ∙ a.stack_is ∙ ap (λ zs. zs ++ x ∷ []) empty)

-- The line `a-r-b`.
abbrev pub enter : ℕ → ℕ → ℕ → Input
enter a r b = record { from = a; dash_before = dash; relation = r; dash_behind = dash; to = b }

enter_accepted :
    (a r b : ℕ)
    → (a == blank) ≡ false
    → (r == blank) ≡ false
    → (b == blank) ≡ false
    → is_accepted (enter a r b) ≡ true
enter_accepted a r b ha hr hb = ground arith

module _ (moved : ℕ → Bool) (a b h : ℕ) (f m : Tree) (s : State) (at_head : s.head ≡ node h f m)
    (other : (h == b) ≡ false) where
  line-add :
      is_accepted (enter a letter_f b) ≡ true
      → line moved (enter a letter_f b) s ≡ add_parent father (enter a letter_f b) (node h f m) s
  unfolding line
  line-add fine = ground arith

  line-show :
      is_accepted (enter a question b) ≡ true
      → line moved (enter a question b) s ≡ show_relation moved (enter a question b) (node h f m) s
  unfolding line
  line-show fine = ground arith

-- The state after a parent was added.
abbrev added : Tree → State → State
added t s = record s { head = t; printed = (s.printed ++ traversal t) ++ newline ∷ [] }

add_parent-runs :
    (a b : ℕ) (head : Tree) (s : State) (p : List Side)
    → find_node a head ≡ some p
    → is_null (attach father (node b null null) p head) ≡ false
    → add_parent father (enter a letter_f b) head s
      ≡ ok tt (added (attach father (node b null null) p head) s)
unfolding add_parent print_tree
add_parent-runs a b head s p e real = rw (e, real) refl

show_relation-runs :
    (moved : ℕ → Bool) (a b : ℕ) (head : Tree) (s s' : State) (p q : List Side)
    → find_node a head ≡ some p
    → print_relation moved b (subtree p head) s ≡ ok (some q) s'
    → s'.stale ≡ false
    → show_relation moved (enter a question b) head s ≡ ok tt (record s' { stack = [] })
unfolding show_relation
show_relation-runs moved a b head s s' p q e runs fresh = rw (e, runs, fresh) refl

find-parent :
    (a b : ℕ) (m : Tree)
    → (a == b) ≡ false
    → find_node b (node a (node b null null) m) ≡ some (father ∷ [])
unfolding find_node
find-parent a b m e = ground arith

-- The relation of `a` to its father, asked for right after it was entered.
asked :
    (moved : ℕ → Bool) (a b : ℕ) (t : Tree) (s : State) (p : List Side)
    → ((k : ℕ) → moved k ≡ false)
    → s.stale ≡ false
    → s.stack ≡ []
    → (a == b) ≡ false
    → find_node a t ≡ some p
    → (m : Tree) → subtree p t ≡ node a (node b null null) m
    → (s' : State) × (show_relation moved (enter a question b) t s ≡ ok tt s')
      × (s'.printed ≡ s.printed ++ a ∷ dash ∷ letter_f ∷ dash ∷ b ∷ newline ∷ [])
      × (s'.stack ≡ [])
      × (s'.head ≡ s.head)
asked moved a b t s p steady fresh empty ne there m sub =
    let (s', runs, after) =
      print_relation_lem moved b a (node b null null) m s (father ∷ []) steady fresh
        (find-parent a b m ne) in
    (
      record s' { stack = [] },
      show_relation-runs moved a b t s s' p (father ∷ []) there
          (subst (λ x. print_relation moved b x s ≡ ok (some (father ∷ [])) s') (sym sub) runs)
          after.fresh,
      after.text_is ∙ ap (λ zs. s.printed ++ joined (zs ++ a ∷ letter_f ∷ b ∷ [])) empty,
      refl,
      after.same_head,
    )

-- With a `realloc` that leaves the block in place, an empty stack and a tree that has the name `a`,
-- the line `a-F-b`, with names that differ and are no blanks, and with another name than `b` at the head,
-- adds a father; the line `a-?-b` then prints `a-F-b`, leaves the stack empty and the tree as it is.
pub line-line :
    (moved : ℕ → Bool) (a b h : ℕ) (f m : Tree) (s : State) (p : List Side)
    → ((k : ℕ) → moved k ≡ false)
    → s.stale ≡ false
    → s.stack ≡ []
    → s.head ≡ node h f m
    → find_node a (node h f m) ≡ some p
    → (h == b) ≡ false
    → (a == b) ≡ false
    → (a == blank) ≡ false
    → (b == blank) ≡ false
    → (s1 s2 : State) × (line moved (enter a letter_f b) s ≡ ok tt s1)
      × (line moved (enter a question b) s1 ≡ ok tt s2)
      × (s2.printed ≡ s1.printed ++ a ∷ dash ∷ letter_f ∷ dash ∷ b ∷ newline ∷ [])
      × (s2.stack ≡ [])
      × (s2.head ≡ s1.head)
line-line moved a b h f m s p steady fresh empty at_head there other ne ha hb =
    let y = node b null null in
    let t = attach father y p (node h f m) in
    let (again, sub) = find_node-attach father y a p (node h f m) there in
    let (fa, mo, whole) = find-subtree a p (node h f m) there in
    let (f', m', root) = attach-root father y p h f m in
    let s1 = added t s in
    let (s2, shows, text, left, same) =
      asked moved a b t s1 p steady fresh empty ne again mo (sub ∙ ap (set_side father y) whole) in
    (
      s1,
      s2,
      line-add moved a b h f m s at_head other (enter_accepted a letter_f b ha refl hb)
          ∙ add_parent-runs a b (node h f m) s p there (ap is_null root),
      line-show moved a b h f' m' s1 root other (enter_accepted a question b ha refl hb)
          ∙ subst (λ x. show_relation moved (enter a question b) x s1 ≡ ok tt s2) root shows,
      text,
      left,
      same,
    )
