-- ===== src/Tests/Names.antt =====
-- Tests of the family tree: A has the father B and the mother C, and B has the mother D.
use cau_assignments.Base.{ℕ, ◌≡◌, refl, Bool, true, false, some, [], ◌∷◌, ◌++◌}
use cau_assignments.Base.Run.{ok, panic}
use cau_assignments.Relatives.Ops.{
  Tree, null, node, father, mother, State, letter_f, question, dash, newline, joined, find_node,
  print_relation, line,
}
use cau_assignments.Relatives.Find.{Finds, find_node_lem}
use cau_assignments.Relatives.Print.{trail, After}
use cau_assignments.Relatives.Input.{enter, print_relation_lem, print_relation-panic, line-line}
use cau_assignments.Relatives.Faults.{print_relation-stale}

abbrev tree_b : Tree
tree_b = node 66 null (node 68 null null)

abbrev tree : Tree
tree = node 65 tree_b (node 67 null null)

abbrev steady : ℕ → Bool
steady k = false

abbrev s : State
s = record { head = tree; stack = []; stale = false; calls = 0; printed = [] }

find_node_lem_example : Finds 68 tree (some (father ∷ mother ∷ []))
unfolding find_node
find_node_lem_example = find_node_lem 68 tree

print_relation_lem_example :
    (s' : State) × (print_relation steady 68 tree s ≡ ok (some (father ∷ mother ∷ [])) s')
    × After s (trail (father ∷ mother ∷ []) tree) (joined (trail (father ∷ mother ∷ []) tree)) s'
unfolding find_node
print_relation_lem_example =
    print_relation_lem steady 68 65 tree_b (node 67 null null) s (father ∷ mother ∷ []) (λ k. refl)
      refl refl

print_relation-panic_example : print_relation steady 90 tree s ≡ panic
unfolding find_node
print_relation-panic_example =
    print_relation-panic steady 90 65 tree_b (node 67 null null) s (λ k. refl) refl refl refl

line-line_example :
    (s1 s2 : State) × (line steady (enter 68 letter_f 69) s ≡ ok tt s1)
    × (line steady (enter 68 question 69) s1 ≡ ok tt s2)
    × (s2.printed ≡ s1.printed ++ 68 ∷ dash ∷ letter_f ∷ dash ∷ 69 ∷ newline ∷ [])
    × (s2.stack ≡ [])
    × (s2.head ≡ s1.head)
unfolding find_node
line-line_example =
    line-line steady 68 69 65 tree_b (node 67 null null) s (father ∷ mother ∷ []) (λ k. refl) refl
      refl refl refl refl refl refl refl

print_relation-stale_example : print_relation (λ k. true) 68 tree s ≡ panic
print_relation-stale_example =
    print_relation-stale (λ k. true) 68 65 tree_b (node 67 null null) s refl refl
