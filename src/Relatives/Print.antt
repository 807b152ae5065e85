-- ===== src/Relatives/Print.antt =====
-- `printRelation` goes the way that `findNode` finds and prints it.
use cau_assignments.Base.{
  ℕ, ◌+◌, ◌≡◌, refl, Bool, true, false, Option, none, some, List, [], ◌∷◌, ◌++◌, ◌==◌, arith,
  if◌then◌else◌, ap, ◌∙◌,
}
use cau_assignments.Base.Run.{Cmd, ok, panic, pure, ◌>>◌}
use cau_assignments.Relatives.Ops.{
  Tree, null, node, Side, father, mother, State, is_null, is_empty, letter_f, letter_m, joined,
  drop_last, stack_push, stack_pop, stack_print, print_relation,
}

-- What `printRelation` pushes on a way: names, and a letter for each side that it takes.
abbrev pub trail : List Side → Tree → List ℕ
trail p null = []
trail [] (node x f m) = x ∷ []
trail (father ∷ p) (node x f m) = x ∷ letter_f ∷ trail p f
trail (mother ∷ p) (node x f m) = x ∷ letter_m ∷ trail p m

-- `s'` is `s` but for the stack, the text and the count of the calls of `realloc`.
pub record After (s : State) (stack printed : List ℕ) (s' : State) : Type 0 where
  pub same_head : s'.head ≡ s.head
  pub stack_is : s'.stack ≡ stack
  pub fresh : s'.stale ≡ false
  pub text_is : s'.printed ≡ printed

pub drop_last-append : (xs : List ℕ) (x : ℕ) → drop_last (xs ++ x ∷ []) ≡ xs
drop_last-append [] x = refl
drop_last-append (y ∷ []) x = refl
drop_last-append (y ∷ z ∷ xs) x = ap (λ r. y ∷ r) (drop_last-append (z ∷ xs) x)

is_empty-append : (xs : List ℕ) (x : ℕ) → is_empty (xs ++ x ∷ []) ≡ false
is_empty-append [] x = refl
is_empty-append (y ∷ xs) x = refl

module _ (moved : ℕ → Bool) (steady : (k : ℕ) → moved k ≡ false) where
  pub push_lem :
      (c : ℕ) (s : State)
      → s.stale ≡ false
      → (s' : State) × (stack_push moved c s ≡ ok tt s') × After s (s.stack ++ c ∷ []) s.printed s'
  unfolding stack_push
  push_lem c s h = (
    record s { stack = s.stack ++ c ∷ []; stale = moved s.calls; calls = s.calls + 1 },
    rw h refl,
    record { same_head = refl; stack_is = refl; fresh = steady s.calls; text_is = refl },
  )

  pub pop_lem :
      (xs : List ℕ) (x : ℕ) (s : State)
      → s.stale ≡ false
      → s.stack ≡ xs ++ x ∷ []
      → (s' : State) × (stack_pop moved s ≡ ok tt s') × After s xs s.printed s'
  unfolding stack_pop
  pop_lem xs x s h e = (
    record s { stack = drop_last s.stack; stale = moved s.calls; calls = s.calls + 1 },
    (let n : is_empty s.stack ≡ false = ap is_empty e ∙ is_empty-append xs x in ground arith),
    record {
      same_head = refl;
      stack_is = ap drop_last e ∙ drop_last-append xs x;
      fresh = steady s.calls;
      text_is = refl;
    },
  )

  pub pop-panic : (s : State) → s.stack ≡ [] → stack_pop moved s ≡ panic
  unfolding stack_pop
  pop-panic s e = ground arith

  pub print_lem :
      (xs : List ℕ) (x : ℕ) (s : State)
      → s.stale ≡ false
      → s.stack ≡ xs ++ x ∷ []
      → (s' : State) × (stack_print s ≡ ok tt s') × After s s.stack (s.printed ++ joined s.stack) s'
  unfolding stack_print
  print_lem xs x s h e = (
    record s { printed = s.printed ++ joined s.stack },
    (let n : is_empty s.stack ≡ false = ap is_empty e ∙ is_empty-append xs x in ground arith),
    record { same_head = refl; stack_is = refl; fresh = h; text_is = refl },
  )

  -- The search on one side.
  abbrev pub side : ℕ → ℕ → Tree → Cmd State (Option (List Side))
  side letter c t =
      if is_null t then pure none else do stack_push moved letter; print_relation moved c t

  -- The end of `printRelation`.
  abbrev pub two_pops : Cmd State (Option (List Side))
  two_pops = do stack_pop moved; stack_pop moved; pure none

  pub relation-found :
      (c x : ℕ) (f m : Tree) (s s1 s2 : State)
      → (x == c) ≡ true
      → stack_push moved x s ≡ ok tt s1
      → stack_print s1 ≡ ok tt s2
      → print_relation moved c (node x f m) s ≡ ok (some []) s2
  unfolding print_relation
  relation-found c x f m s s1 s2 e p q = ground (arith, p, q)

  pub relation-father :
      (c x : ℕ) (f m : Tree) (s s1 s2 : State) (p : List Side)
      → (x == c) ≡ false
      → stack_push moved x s ≡ ok tt s1
      → side letter_f c f s1 ≡ ok (some p) s2
      → print_relation moved c (node x f m) s ≡ ok (some (father ∷ p)) s2
  unfolding print_relation
  relation-father c x f m s s1 s2 p e h k = ground (arith, h, k)

  pub relation-mother :
      (c x : ℕ) (f m : Tree) (s s1 s2 s3 : State) (p : List Side)
      → (x == c) ≡ false
      → stack_push moved x s ≡ ok tt s1
      → side letter_f c f s1 ≡ ok none s2
      → side letter_m c m s2 ≡ ok (some p) s3
      → print_relation moved c (node x f m) s ≡ ok (some (mother ∷ p)) s3
  unfolding print_relation
  relation-mother c x f m s s1 s2 s3 p e h k l = ground (arith, h, k, l)

  pub relation-none :
      (c x : ℕ) (f m : Tree) (s s1 s2 s3 : State)
      → (x == c) ≡ false
      → stack_push moved x s ≡ ok tt s1
      → side letter_f c f s1 ≡ ok none s2
      → side letter_m c m s2 ≡ ok none s3
      → print_relation moved c (node x f m) s ≡ two_pops s3
  unfolding print_relation
  relation-none c x f m s s1 s2 s3 e h k l = ground (arith, h, k, l)
