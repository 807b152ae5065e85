-- ===== src/Threads/Ages.antt =====
-- `list_under_priority_get_age`: the walk over all threads that makes waiting threads older.
use cau_assignments.Base.{
  ℕ, zero, suc, ◌+◌, ◌%◌, ◌^◌, ◌<◌, ◌≡◌, refl, Bool, false, not, ◌&&◌, List, [], ◌∷◌, ◌++◌, ◌==◌,
  map, arith, has, Distinct, length, if◌then◌else◌, inl, inr, Bool-cases, sym, subst, append_assoc,
  ◌∙◌, ap,
}
use cau_assignments.Base.Run.{ok, Cmd}
use cau_assignments.Base.Words.{gt_int}
use cau_assignments.KernelList.Memory.{Ptr}
use cau_assignments.KernelList.Ops.{tail, list_end, list_next}
use cau_assignments.KernelList.Lists.{IsList, first, Distinct-append}
use cau_assignments.KernelList.Step.{list_next_lem, list_begin_lem, list_end_lem, elem-ne-tail}
use cau_assignments.Threads.State.{
  Statics, Thread, Kernel, is_ready, allelem, allelem_entry, set_thread,
}
use cau_assignments.Threads.Schedule.{
  foreach_loop, thread_foreach, thread_age, list_under_priority_get_age,
}

-- A thread that waits in a queue below the level `p` is one older afterwards.
abbrev pub is_waiting : Kernel → ℕ → Ptr → Bool
is_waiting k p t =
    not (t == k.idle_thread) && (is_ready (k.threads t).status && gt_int (k.threads t).priority p)

abbrev pub older : Kernel → ℕ → Ptr → Thread
older k p t =
    if is_waiting k p t
    then record (k.threads t) { age = ((k.threads t).age + 1) % 2 ^ 32 }
    else k.threads t

-- Only the ages of the threads `ts` changed.
pub record Aged (k : Kernel) (p : ℕ) (ts : List Ptr) (k' : Kernel) : Type 0 where
  pub others : k' ≡ record k { threads = k'.threads }
  pub ages : (t : Ptr) → k'.threads t ≡ (if has t ts then older k p t else k.threads t)

thread_age_lem :
    (v : Statics) (p : ℕ) (t : Ptr) (k : Kernel)
    → (k' : Kernel) × (thread_age v p t k ≡ ok tt k') × Aged k p (t ∷ []) k'
unfolding thread_age
thread_age_lem v p t k = elim (Bool-cases (is_waiting k p t)) [
  | inl e ↦ (
    set_thread t (older k p t) k,
    ground arith,
    record { others = refl; ages = λ r. ground arith },
  )
  | inr e ↦ (k, ground arith, record { others = refl; ages = λ r. ground arith })
]

Aged-cons :
    (k k1 k2 : Kernel) (p : ℕ) (t : Ptr) (ts : List Ptr)
    → has t ts ≡ false
    → Aged k p (t ∷ []) k1
    → Aged k1 p ts k2
    → Aged k p (t ∷ ts) k2
Aged-cons k k1 k2 p t ts out a b = record {
  others = b.others ∙ (λ i. record (a.others i) { threads = k2.threads });
  ages = λ r.
      let idle : k1.idle_thread ≡ k.idle_thread = ap (λ x. x.idle_thread) a.others in
      elim (Bool-cases (r == t)) [
        | inl e ↦ ground (arith, a.ages r, b.ages r, idle, out)
        | inr e ↦ ground (arith, a.ages r, b.ages r, idle)
      ];
}

foreach-end :
    (v : Statics) (n : ℕ) (func : Ptr → Cmd Kernel (Unit {0})) (k : Kernel)
    → list_end v.all_list k.mem ≡ ok (tail v.all_list) k.mem
    → foreach_loop v (suc n) func (tail v.all_list) k ≡ ok tt k
unfolding foreach_loop
foreach-end v n func k stop = ground (arith, stop)

foreach-next :
    (v : Statics) (n : ℕ) (func : Ptr → Cmd Kernel (Unit {0})) (t e' : Ptr) (k k' : Kernel)
    → list_end v.all_list k.mem ≡ ok (tail v.all_list) k.mem
    → (allelem t == tail v.all_list) ≡ false
    → allelem_entry (allelem t) ≡ t
    → func t k ≡ ok tt k'
    → list_next (allelem t) k'.mem ≡ ok e' k'.mem
    → foreach_loop v (suc n) func (allelem t) k ≡ foreach_loop v n func e' k'
unfolding foreach_loop
foreach-next v n func t e' k k' stop ne entry runs next = ground (arith, stop, entry, runs, next)

foreach_age :
    (v : Statics) (p n : ℕ) (k : Kernel) (xs ys : List Ptr)
    → IsList k.mem v.all_list (xs ++ map allelem ys)
    → Distinct ys
    → length ys < n
    → (k' : Kernel) × (foreach_loop v n
          (thread_age v p)
          (first (map allelem ys) (tail v.all_list))
          k
        ≡ ok tt k')
      × Aged k p ys k'
foreach_age v p zero k xs ys is d lt = absurd (omega arith)
foreach_age v p (suc n) k xs [] is d lt = (
  k,
  foreach-end v n (thread_age v p) k (list_end_lem k.mem v.all_list (xs ++ []) is),
  record { others = refl; ages = λ r. refl },
)
foreach_age v p (suc n) k xs (t ∷ ys) is d lt =
    let (k1, runs, a) = thread_age_lem v p t k in
    let same : k.mem ≡ k1.mem = sym (ap (λ x. x.mem) a.others) in
    let is1 : IsList k1.mem v.all_list ((xs ++ allelem t ∷ []) ++ map allelem ys) =
      subst (λ m. IsList m v.all_list ((xs ++ allelem t ∷ []) ++ map allelem ys)) same
        (subst (IsList k.mem v.all_list) (sym (append_assoc xs (allelem t ∷ []) (map allelem ys)))
          is) in
    let (k2, rest, b) = foreach_age v p n k1 (xs ++ allelem t ∷ []) ys is1 d.1 (omega arith) in
    let is' = subst (λ m. IsList m v.all_list (xs ++ allelem t ∷ map allelem ys)) same is in
    (
      k2,
      foreach-next v n (thread_age v p) t (first (map allelem ys) (tail v.all_list)) k k1
            (list_end_lem k.mem v.all_list (xs ++ allelem t ∷ map allelem ys) is)
            (elem-ne-tail k.mem v.all_list xs (allelem t) (map allelem ys) is) (omega arith) runs
            (list_next_lem k1.mem v.all_list xs (allelem t) (map allelem ys) is')
          ∙ rest,
      Aged-cons k k1 k2 p t ys d.0 a b,
    )

has-allelem : (t : Ptr) (ts : List Ptr) → has (allelem t) (map allelem ts) ≡ has t ts
has-allelem t [] = refl
has-allelem t (x ∷ ts) = ground (arith, has-allelem t ts)

Distinct-allelem : (ts : List Ptr) → Distinct (map allelem ts) → Distinct ts
Distinct-allelem [] d = tt
Distinct-allelem (t ∷ ts) d = (sym (has-allelem t ts) ∙ d.0, Distinct-allelem ts d.1)

-- With the threads `ts` on the list of all threads, and fuel for one step per thread and one more,
-- `list_under_priority_get_age` adds one to the age of each of them that is ready, below the level
-- `p` and not the idle thread. The age wraps around at 32 bits, and nothing else changes.
pub list_under_priority_get_age_lem :
    (v : Statics) (fuel p : ℕ) (k : Kernel) (ts : List Ptr)
    → IsList k.mem v.all_list (map allelem ts)
    → k.intr_on ≡ false
    → length ts < fuel
    → (k' : Kernel) × (list_under_priority_get_age v fuel p k ≡ ok tt k') × Aged k p ts k'
unfolding list_under_priority_get_age thread_foreach
list_under_priority_get_age_lem v fuel p k ts is off lt =
    let d = Distinct-append (map allelem ts) (tail v.all_list ∷ []) is.distinct.1 in
    let (k', runs, a) = foreach_age v p fuel k [] ts is (Distinct-allelem ts d.0) lt in
    (k', ground (arith, off, list_begin_lem k.mem v.all_list (map allelem ts) is, runs), a)
