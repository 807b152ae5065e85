-- ===== src/Relatives/Relation.antt =====
-- The recursion of `printRelation`.
use cau_assignments.Base.{
  ℕ, ◌≡◌, refl, Bool, true, false, Option, none, some, List, [], ◌∷◌, ◌++◌, ◌==◌, arith, inl, inr,
  Bool-cases, append_assoc, ap, ap₂, ◌∙◌, subst,
}
use cau_assignments.Base.Run.{ok}
use cau_assignments.Relatives.Ops.{
  Tree, null, node, Side, father, mother, State, letter_f, letter_m, joined, find_node, through,
  or_else, print_relation,
}
use cau_assignments.Relatives.Print.{
  trail, After, side, push_lem, pop_lem, print_lem, relation-found, relation-father,
  relation-mother, relation-none, two_pops,
}

After-trans :
    {s s1 s2 : State} {a b p q : List ℕ} → After s a p s1 → After s1 b q s2 → After s b q s2
After-trans h k = record {
  same_head = k.same_head ∙ h.same_head;
  stack_is = k.stack_is;
  fresh = k.fresh;
  text_is = k.text_is;
}

After-eq : {s s' : State} {a b p q : List ℕ} → After s a p s' → a ≡ b → p ≡ q → After s b q s'
After-eq h e f = record {
  same_head = h.same_head;
  stack_is = h.stack_is ∙ e;
  fresh = h.fresh;
  text_is = h.text_is ∙ f;
}

module _ (moved : ℕ → Bool) (steady : (k : ℕ) → moved k ≡ false) (c : ℕ) where
  -- What `printRelation` does, by the way that `findNode` finds.
  abbrev pub Prints : Tree → State → Option (List Side) → Type 0
  Prints t s none =
      (zs : List ℕ) (z : ℕ)
      → s.stack ≡ zs ++ z ∷ []
      → (s' : State) × (print_relation moved c t s ≡ ok none s') × After s zs s.printed s'
  Prints t s (some p) =
      (s' : State) × (print_relation moved c t s ≡ ok (some p) s')
      × After s (s.stack ++ trail p t) (s.printed ++ joined (s.stack ++ trail p t)) s'

  abbrev Sides : ℕ → Tree → State → Option (List Side) → Type 0
  Sides l t s none =
      (s' : State) × (side moved steady l c t s ≡ ok none s') × After s s.stack s.printed s'
  Sides l t s (some p) =
      (s' : State) × (side moved steady l c t s ≡ ok (some p) s')
      × After s (s.stack ++ l ∷ trail p t) (s.printed ++ joined (s.stack ++ l ∷ trail p t)) s'

  side_lem :
      (l x : ℕ) (f m : Tree) (s : State) (r : Option (List Side))
      → s.stale ≡ false
      → ((s' : State) → s'.stale ≡ false → Prints (node x f m) s' r)
      → Sides l (node x f m) s r
  side_lem l x f m s none h go =
      let (s1, pushes, a) = push_lem moved steady l s h in
      let (s2, runs, b) = go s1 a.fresh s.stack l a.stack_is in
      (s2, ground (arith, pushes, runs), After-eq (After-trans a b) refl a.text_is)
  side_lem l x f m s (some p) h go =
      let (s1, pushes, a) = push_lem moved steady l s h in
      let (s2, runs, b) = go s1 a.fresh in
      let e : s1.stack ++ trail p (node x f m) ≡ s.stack ++ l ∷ trail p (node x f m) =
        ap (λ zs. zs ++ trail p (node x f m)) a.stack_is
        ∙ append_assoc s.stack (l ∷ []) (trail p (node x f m)) in
      (
        s2,
        ground (arith, pushes, runs),
        After-eq (After-trans a b) e (ap₂ ◌++◌ a.text_is (ap joined e)),
      )

  -- Two pops take back the name and what was below it.
  pops :
      (zs : List ℕ) (z x : ℕ) (s : State)
      → s.stale ≡ false
      → s.stack ≡ (zs ++ z ∷ []) ++ x ∷ []
      → (s' : State) × (two_pops moved steady s ≡ ok none s') × After s zs s.printed s'
  pops zs z x s h e =
      let (s1, one, a) = pop_lem moved steady (zs ++ z ∷ []) x s h e in
      let (s2, two, b) = pop_lem moved steady zs z s1 a.fresh a.stack_is in
      (s2, ground (arith, one, two), After-eq (After-trans a b) refl a.text_is)

  -- A node of another name, by what the sides give.
  node_lem :
      (x : ℕ) (f m : Tree) (s : State) (r q : Option (List Side))
      → (x == c) ≡ false
      → s.stale ≡ false
      → ((s' : State) → s'.stale ≡ false → Sides letter_f f s' r)
      → ((s' : State) → s'.stale ≡ false → Sides letter_m m s' q)
      → Prints (node x f m) s (or_else (through father r) (through mother q))
  node_lem x f m s (some p) q ne h left right =
      let (s1, pushes, a) = push_lem moved steady x s h in
      let (s2, runs, b) = left s1 a.fresh in
      let e : s1.stack ++ letter_f ∷ trail p f ≡ s.stack ++ x ∷ letter_f ∷ trail p f =
        ap (λ zs. zs ++ letter_f ∷ trail p f) a.stack_is
        ∙ append_assoc s.stack (x ∷ []) (letter_f ∷ trail p f) in
      (
        s2,
        relation-father moved steady c x f m s s1 s2 p ne pushes runs,
        After-eq (After-trans a b) e (ap₂ ◌++◌ a.text_is (ap joined e)),
      )
  node_lem x f m s none (some p) ne h left right =
      let (s1, pushes, a) = push_lem moved steady x s h in
      let (s2, none_left, b) = left s1 a.fresh in
      let (s3, runs, d) = right s2 b.fresh in
      let e : s2.stack ++ letter_m ∷ trail p m ≡ s.stack ++ x ∷ letter_m ∷ trail p m =
        ap (λ zs. zs ++ letter_m ∷ trail p m) (b.stack_is ∙ a.stack_is)
        ∙ append_assoc s.stack (x ∷ []) (letter_m ∷ trail p m) in
      (
        s3,
        relation-mother moved steady c x f m s s1 s2 s3 p ne pushes none_left runs,
        After-eq (After-trans a (After-trans b d)) e
            (ap₂ ◌++◌ (b.text_is ∙ a.text_is) (ap joined e)),
      )
  node_lem x f m s none none ne h left right = λ zs z e.
      let (s1, pushes, a) = push_lem moved steady x s h in
      let (s2, none_left, b) = left s1 a.fresh in
      let (s3, none_right, d) = right s2 b.fresh in
      let (s4, runs, k) =
        pops zs z x s3 d.fresh (d.stack_is ∙ b.stack_is ∙ a.stack_is ∙ ap (λ r. r ++ x ∷ []) e) in
      (
        s4,
        relation-none moved steady c x f m s s1 s2 s3 ne pushes none_left none_right ∙ runs,
        After-eq (After-trans a (After-trans b (After-trans d k))) refl
            (d.text_is ∙ b.text_is ∙ a.text_is),
      )

  found_lem :
      (x : ℕ) (f m : Tree) (s : State)
      → (x == c) ≡ true
      → s.stale ≡ false
      → Prints (node x f m) s (some [])
  found_lem x f m s e h =
      let (s1, pushes, a) = push_lem moved steady x s h in
      let (s2, prints, b) = print_lem moved steady s.stack x s1 a.fresh a.stack_is in
      (
        s2,
        relation-found moved steady c x f m s s1 s2 e pushes prints,
        After-eq (After-trans a b) a.stack_is (ap₂ ◌++◌ a.text_is (ap joined a.stack_is)),
      )

  null-Sides : (l : ℕ) (s : State) → s.stale ≡ false → Sides l null s none
  null-Sides l s h =
      (s, refl, record { same_head = refl; stack_is = refl; fresh = h; text_is = refl })

  relation_step :
      (x : ℕ) (f m : Tree) (s : State)
      → s.stale ≡ false
      → ((s' : State) → s'.stale ≡ false → Sides letter_f f s' (find_node c f))
      → ((s' : State) → s'.stale ≡ false → Sides letter_m m s' (find_node c m))
      → Prints (node x f m) s (find_node c (node x f m))
  unfolding find_node
  relation_step x f m s h left right = elim (Bool-cases (x == c)) [
    | inl e ↦ rw e (found_lem x f m s e h)
    | inr e ↦ rw e (node_lem x f m s (find_node c f) (find_node c m) e h left right)
  ]

  sides_lem : (l : ℕ) (t : Tree) (s : State) → s.stale ≡ false → Sides l t s (find_node c t)
  unfolding find_node
  sides_lem l null s h = null-Sides l s h
  sides_lem l (node x f m) s h =
      side_lem l x f m s (find_node c (node x f m)) h
        (λ s' h'. relation_step x f m s' h' (sides_lem letter_f f) (sides_lem letter_m m))

  pub relation_lem :
      (x : ℕ) (f m : Tree) (s : State)
      → s.stale ≡ false
      → Prints (node x f m) s (find_node c (node x f m))
  relation_lem x f m s h = relation_step x f m s h (sides_lem letter_f f) (sides_lem letter_m m)

  pub sides_none :
      (l : ℕ) (t : Tree) (s : State)
      → s.stale ≡ false
      → find_node c t ≡ none
      → (s' : State) × (side moved steady l c t s ≡ ok none s') × After s s.stack s.printed s'
  sides_none l t s h e = subst (Sides l t s) e (sides_lem l t s h)
