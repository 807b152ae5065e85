-- ===== src/Intq/Refine.antt =====
-- In an interrupt handler an interrupt queue is a queue of at most 63 bytes.
use cau_assignments.Base.{
  ℕ, ◌≡◌, refl, true, false, List, [], ◌∷◌, ◌++◌, ◌==◌, arith, length, if◌then◌else◌, Option, none,
  some, inl, inr, Bool-cases, ◌∙◌, subst,
}
use cau_assignments.Base.Run.{and_then, Run, ok, panic, Cmd, pure, ◌>>=◌}
use cau_assignments.KernelList.Memory.{Ptr, null}
use cau_assignments.Threads.State.{Statics}
use cau_assignments.Threads.Synch.{Machine}
use cau_assignments.Intq.Ops.{
  System, Outcome, is_empty, is_full, intq_empty, intq_full, signal, acquire_and_wait, getc_loop,
  putc_loop, intq_getc, intq_putc,
}
use cau_assignments.Intq.Ring.{
  Contains, Contains-is_empty, Contains-is_full, Contains-put, Contains-dropped, put, dropped,
}

-- The queue that is meant: the oldest byte first.
abbrev pub capacity : ℕ
capacity = 63

pub data Op : Type 0 where
  put_byte : ℕ → Op
  get_byte : Op

-- What an operation returns, with the queue it leaves; there is no result when a byte is put into
-- a full queue or taken from an empty one.
abbrev pub one_meant : Op → List ℕ → Option (List ℕ × List ℕ)
one_meant (Op.put_byte b) xs = if length xs == capacity then none else some ([], xs ++ b ∷ [])
one_meant Op.get_byte [] = none
one_meant Op.get_byte (x ∷ xs) = some (x ∷ [], xs)

abbrev meant_next : List ℕ → Option (List ℕ × List ℕ) → Option (List ℕ × List ℕ)
meant_next out none = none
meant_next out (some (outs, zs)) = some (out ++ outs, zs)

unfoldable pub meant : List Op → List ℕ → Option (List ℕ × List ℕ)
meant [] xs = some ([], xs)
meant (o ∷ os) xs = elim (one_meant o xs) [
  | none ↦ none
  | some (out, ys) ↦ meant_next out (meant os ys)
]

-- The same operations on the queue in memory; a call that waits ends the run.
abbrev pub also : {A B : Type 0} → (A → B) → Outcome A → Outcome B
also f (Outcome.done a) = Outcome.done (f a)
also f (Outcome.in_lock old) = Outcome.in_lock old
also f Outcome.in_wait = Outcome.in_wait

module _ (v : Statics) (l : Ptr) where
  unfoldable pub one_run : Op → Cmd System (Outcome (List ℕ))
  one_run (Op.put_byte b) = do r ← intq_putc v l b; pure (also (λ u. []) r)
  one_run Op.get_byte = do r ← intq_getc v l; pure (also (λ x. x ∷ []) r)

  unfoldable pub run : List Op → Cmd System (Outcome (List ℕ))
  run [] = pure (Outcome.done [])
  run (o ∷ os) = do
    r ← one_run o
    elim r [
      | Outcome.done out ↦ (do r' ← run os; pure (also (λ outs. out ++ outs) r'))
      | Outcome.in_lock old ↦ pure (Outcome.in_lock old)
      | Outcome.in_wait ↦ pure Outcome.in_wait
    ]

-- An interrupt handler runs, and no thread waits for the queue.
pub record InHandler (s : System) : Type 0 where
  pub off : s.machine.kernel.intr_on ≡ false
  pub handler : s.machine.kernel.in_external_intr ≡ true
  pub no_writer : s.queue.not_full ≡ null
  pub no_reader : s.queue.not_empty ≡ null

putc-full :
    (v : Statics) (l : Ptr) (s : System) (b : ℕ)
    → InHandler s
    → is_full s.queue ≡ true
    → intq_putc v l b s ≡ panic
unfolding intq_putc putc_loop intq_full acquire_and_wait
putc-full v l s b i e = let o = i.off in let h = i.handler in ground (arith, e)

putc-space :
    (v : Statics) (l : Ptr) (s : System) (b : ℕ)
    → InHandler s
    → is_full s.queue ≡ false
    → is_empty (put b s.queue) ≡ false
    → intq_putc v l b s ≡ ok (Outcome.done tt) (record s { queue = put b s.queue })
unfolding intq_putc putc_loop intq_full signal
putc-space v l s b i e met = let o = i.off in let h = i.no_reader in ground (arith, e, met)

getc-empty :
    (v : Statics) (l : Ptr) (s : System)
    → InHandler s
    → is_empty s.queue ≡ true
    → intq_getc v l s ≡ panic
unfolding intq_getc getc_loop intq_empty acquire_and_wait
getc-empty v l s i e = let o = i.off in let h = i.handler in ground (arith, e)

getc-some :
    (v : Statics) (l : Ptr) (s : System)
    → InHandler s
    → is_empty s.queue ≡ false
    → is_full (dropped s.queue) ≡ false
    → intq_getc v l s
      ≡ ok (Outcome.done (s.queue.buf s.queue.tail)) (record s { queue = dropped s.queue })
unfolding intq_getc getc_loop intq_empty signal
getc-some v l s i e met = let o = i.off in let h = i.no_writer in ground (arith, e, met)

-- A run gives the result that is meant, or ends in a panic where none is meant.
abbrev pub Gives : Machine → Option (List ℕ × List ℕ) → Run System (Outcome (List ℕ)) → Type 0
Gives w none r = r ≡ panic
Gives w (some (outs, ys)) r =
    (s' : System) × (r ≡ ok (Outcome.done outs) s')
    × (s'.machine ≡ w)
    × InHandler s'
    × Contains s'.queue ys

Gives-put :
    (v : Statics) (l : Ptr) (s : System) (xs : List ℕ) (b : ℕ)
    → InHandler s
    → Contains s.queue xs
    → Gives s.machine (one_meant (Op.put_byte b) xs) (one_run v l (Op.put_byte b) s)
unfolding one_run
Gives-put v l s xs b i c =
    let full = Contains-is_full s.queue xs c in
    elim (Bool-cases (length xs == capacity)) [
      | inl e ↦ rw (e, putc-full v l s b i (full ∙ e)) refl
      | inr e ↦
          let c' = Contains-put s.queue xs b c (full ∙ e) in
          rw (e, putc-space v l s b i (full ∙ e) (full ∙ e))
            (
              _,
              refl,
              refl,
              record {
                off = i.off;
                handler = i.handler;
                no_writer = i.no_writer;
                no_reader = i.no_reader;
              },
              c',
            )
    ]

Gives-get :
    (v : Statics) (l : Ptr) (s : System) (xs : List ℕ)
    → InHandler s
    → Contains s.queue xs
    → Gives s.machine (one_meant Op.get_byte xs) (one_run v l Op.get_byte s)
unfolding one_run
Gives-get v l s [] i c = rw (getc-empty v l s i (Contains-is_empty s.queue [] c)) refl
Gives-get v l s (x ∷ xs) i c =
    let (first, c') = Contains-dropped s.queue x xs c in
    let nonempty : is_empty s.queue ≡ false =
      ground (arith, Contains-is_empty s.queue (x ∷ xs) c) in
    let h = c.head_lt in
    let t = c.tail_lt in
    let space : is_full (dropped s.queue) ≡ false = ground (arith, nonempty) in
    rw (getc-some v l s i nonempty space, first)
      (
        _,
        refl,
        refl,
        record {
          off = i.off;
          handler = i.handler;
          no_writer = i.no_writer;
          no_reader = i.no_reader;
        },
        c',
      )

Gives-one :
    (v : Statics) (l : Ptr) (o : Op) (s : System) (xs : List ℕ)
    → InHandler s
    → Contains s.queue xs
    → Gives s.machine (one_meant o xs) (one_run v l o s)
Gives-one v l (Op.put_byte b) s xs = Gives-put v l s xs b
Gives-one v l Op.get_byte s xs = Gives-get v l s xs

Gives-rest :
    (w : Machine) (out : List ℕ) (second : Option (List ℕ × List ℕ))
    (r : Run System (Outcome (List ℕ)))
    → Gives w second r
    → Gives w (meant_next out second) (and_then r (λ o. pure (also (λ outs. out ++ outs) o)))
Gives-rest w out none r g = rw g refl
Gives-rest w out (some (outs, zs)) r (s', runs, same, i, c) = (s', rw runs refl, same, i, c)

-- One more operation in front of a run.
Gives-next :
    (v : Statics) (l : Ptr) (o : Op) (os : List Op) (s : System) (first : Option (List ℕ × List ℕ))
    → Gives s.machine first (one_run v l o s)
    → ((s' : System) (ys : List ℕ)
        → InHandler s'
        → Contains s'.queue ys
        → Gives s'.machine (meant os ys) (run v l os s'))
    → Gives s.machine
        (elim first [ none ↦ none | some (out, ys) ↦ meant_next out (meant os ys) ])
        (run v l (o ∷ os) s)
unfolding run
Gives-next v l o os s none g rest = ground (arith, g)
Gives-next v l o os s (some (out, ys)) (s', runs, same, i, c) rest = rw runs (
    subst
      (λ w.
        Gives w (meant_next out (meant os ys))
          (and_then (run v l os s') (λ r. pure (also (λ outs. out ++ outs) r))))
      same (Gives-rest s'.machine out (meant os ys) (run v l os s') (rest s' ys i c)))

-- In an interrupt handler, with no thread waiting for the queue, every sequence of calls of `intq_putc`
-- and `intq_getc` behaves as one of puts and gets on a queue of at most 63 bytes: it returns the
-- same bytes in the same order, leaves the same contents and all else as it was, and ends in a panic
-- exactly where a byte is put into a full queue or taken from an empty one.
pub run-meant :
    (v : Statics) (l : Ptr) (os : List Op) (s : System) (xs : List ℕ)
    → InHandler s
    → Contains s.queue xs
    → Gives s.machine (meant os xs) (run v l os s)
unfolding meant run
run-meant v l [] s xs i c = (s, refl, refl, i, c)
run-meant v l (o ∷ os) s xs i c =
    Gives-next v l o os s (one_meant o xs) (Gives-one v l o s xs i c) (run-meant v l os)
