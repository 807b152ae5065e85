-- ===== src/Threads/Lower.antt =====
-- `thread_set_priority_lower` of threads/thread.c. The running thread is on no queue, yet at the
-- levels 0 to 2 the code calls `list_remove` on it: that writes through the links that its element
-- kept from the queue it was taken off.
use cau_assignments.Base.{
  ℕ, zero, suc, ◌<◌, ◌≡◌, true, false, List, [], ◌∷◌, map, arith, has, sym, ap, ◌∙◌, fun_ext, ◌==◌,
}
use cau_assignments.Base.Run.{ok}
use cau_assignments.KernelList.Memory.{Ptr, null, Mem, update}
use cau_assignments.KernelList.Ops.{tail, list_remove}
use cau_assignments.KernelList.Lists.{
  nodes, IsList, first, first-mem, first_next, has-nodes, has-ne, real_list,
}
use cau_assignments.KernelList.Remove.{removed, list_remove-ok}
use cau_assignments.KernelList.Segment.{Linked}
use cau_assignments.KernelList.Family.{Lists, Family-Member}
use cau_assignments.Threads.State.{Statics, Kernel, elem, set_priority}
use cau_assignments.Threads.Queues.{enqueue, requeue, thread_set_priority_lower}
use cau_assignments.Threads.View.{Queues, after1, after2, after3, Holds, Unlisted, append_level}
use cau_assignments.Threads.Unblock.{enqueue_lem}

-- The links of an element lead to the ends of the gap in front of a list: where the first element
-- was taken off, and the list has the same first element since.
abbrev pub LinksToFront : Mem → Ptr → Ptr → List Ptr → Type 0
LinksToFront m e l xs = (m.prev e ≡ l) × (m.next e ≡ first xs (tail l))

first_prev : (m : Mem) (a b : Ptr) (xs : List Ptr) → Linked m a xs b → m.prev (first xs b) ≡ a
first_prev m a b [] s = s.1
first_prev m a b (x ∷ xs) s = s.1

update_self : (f : Ptr → Ptr) (p v : Ptr) → f p ≡ v → update f p v ≡ f
update_self f p v h = fun_ext λ q. ground (arith, h)

-- There `list_remove` writes what already stands.
removed_self :
    (m : Mem) (e l : Ptr) (xs : List Ptr) → IsList m l xs → LinksToFront m e l xs → removed m e ≡ m
removed_self m e l xs is (p, n) =
    let a : update m.next (m.prev e) (m.next e) ≡ m.next =
      update_self m.next (m.prev e) (m.next e)
        (ap m.next p ∙ first_next m l (tail l) xs is.linked ∙ sym n) in
    let b : update m.prev (m.next e) (m.prev e) ≡ m.prev =
      update_self m.prev (m.next e) (m.prev e)
        (ap m.prev n ∙ first_prev m l (tail l) xs is.linked ∙ sym p) in
    λ i. record { prev = b i; next = a i }

list_remove_self :
    (m : Mem) (e l : Ptr) (xs : List Ptr)
    → IsList m l xs
    → (e == null) ≡ false
    → LinksToFront m e l xs
    → list_remove e m ≡ ok (m.next e) m
list_remove_self m e l xs is real (p, n) =
    let f = first-mem xs (tail l) in
    let whole : has (first xs (tail l)) (nodes l xs) ≡ true =
      ground (arith, has-nodes (first xs (tail l)) l xs) in
    list_remove-ok m e real (rw p (real_list xs is))
      (rw n (has-ne (first xs (tail l)) null (nodes l xs) whole is.real))
    ∙ ap (ok (m.next e)) (removed_self m e l xs is (p, n))

pub requeue-runs :
    (k : Kernel) (l : Ptr) (p : ℕ) (t n : Ptr) (m m' : Mem)
    → list_remove (elem t) k.mem ≡ ok n m
    → enqueue l t (record k { mem = m }) ≡ ok tt (record k { mem = m' })
    → requeue l p t k ≡ ok tt (set_priority t p (record k { mem = m' }))
requeue-runs k l p t n m m' removes runs = ground (arith, removes, runs)

-- The queue of a level, and where its header is.
abbrev pub level : Queues → ℕ → List Ptr
level q zero = q.fq0
level q (suc zero) = q.fq1
level q (suc (suc zero)) = q.fq2
level q (suc (suc (suc n))) = q.fq3

abbrev pub level_list : Statics → ℕ → Ptr
level_list v zero = v.fq0
level_list v (suc zero) = v.fq1
level_list v (suc (suc zero)) = v.fq2
level_list v (suc (suc (suc n))) = v.fq3

abbrev pub lower_level : ℕ → ℕ
lower_level zero = 1
lower_level (suc zero) = 2
lower_level (suc (suc n)) = 3

set_priority_self :
    (k : Kernel) (t : Ptr) (p : ℕ) → (k.threads t).priority ≡ p → set_priority t p k ≡ k
set_priority_self k t p e =
    let same : (set_priority t p k).threads ≡ k.threads = fun_ext (λ r. ground (arith, e)) in
    λ i. record k { threads = same i }

abbrev Lowers : Statics → Kernel → Queues → Ptr → ℕ → Type 0
Lowers v k q t p =
    (m : Mem) × (thread_set_priority_lower v t k
      ≡ ok tt (set_priority t (lower_level p) (record k { mem = m })))
    × Holds v (append_level (lower_level p) t q) m

-- A thread that is on no list, and whose links still lead to the front of the queue of its level,
-- goes to the end of the next lower queue with the priority of that queue; at the lowest level,
-- where no links are written, it goes to the end of the same queue. All other queues stay as they are.
pub thread_set_priority_lower_lem :
    (v : Statics) (k : Kernel) (q : Queues) (t : Ptr) (p : ℕ)
    → Holds v q k.mem
    → Unlisted v q t
    → (k.threads t).priority ≡ p
    → p < 4
    → (p < 3 → LinksToFront k.mem (elem t) (level_list v p) (map elem (level q p)))
    → Lowers v k q t p
unfolding thread_set_priority_lower append_level
thread_set_priority_lower_lem v k q t zero h out e lt links =
    let f1 : Lists = (v.fq0, map elem q.fq0) ∷ [] in
    let (m, runs, rest, same) =
      enqueue_lem k f1 v.fq1 q.fq1 (after1 v q.fq2 q.fq3 q.sleeping q.all) t h out in
    let removes =
      list_remove_self k.mem (elem t) v.fq0 (map elem q.fq0) h.0 (ground arith)
        (links (omega arith)) in
    (m, rw e (requeue-runs k v.fq1 1 t _ k.mem m removes runs), rest)
thread_set_priority_lower_lem v k q t (suc zero) h out e lt links =
    let f1 : Lists = (v.fq0, map elem q.fq0) ∷ [] in
    let f2 : Lists = (v.fq0, map elem q.fq0) ∷ (v.fq1, map elem q.fq1) ∷ [] in
    let (m, runs, rest, same) =
      enqueue_lem k f2 v.fq2 q.fq2 (after2 v q.fq3 q.sleeping q.all) t h out in
    let is =
      (Family-Member f1 v.fq1 (map elem q.fq1) (after1 v q.fq2 q.fq3 q.sleeping q.all) h).list in
    let removes =
      list_remove_self k.mem (elem t) v.fq1 (map elem q.fq1) is (ground arith)
        (links (omega arith)) in
    (m, rw e (requeue-runs k v.fq2 2 t _ k.mem m removes runs), rest)
thread_set_priority_lower_lem v k q t (suc (suc zero)) h out e lt links =
    let f2 : Lists = (v.fq0, map elem q.fq0) ∷ (v.fq1, map elem q.fq1) ∷ [] in
    let f3 : Lists =
      (v.fq0, map elem q.fq0) ∷ (v.fq1, map elem q.fq1) ∷ (v.fq2, map elem q.fq2) ∷ [] in
    let (m, runs, rest, same) = enqueue_lem k f3 v.fq3 q.fq3 (after3 v q.sleeping q.all) t h out in
    let is = (Family-Member f2 v.fq2 (map elem q.fq2) (after2 v q.fq3 q.sleeping q.all) h).list in
    let removes =
      list_remove_self k.mem (elem t) v.fq2 (map elem q.fq2) is (ground arith)
        (links (omega arith)) in
    (m, rw e (requeue-runs k v.fq3 3 t _ k.mem m removes runs), rest)
thread_set_priority_lower_lem v k q t (suc (suc (suc zero))) h out e lt links =
    let f3 : Lists =
      (v.fq0, map elem q.fq0) ∷ (v.fq1, map elem q.fq1) ∷ (v.fq2, map elem q.fq2) ∷ [] in
    let (m, runs, rest, same) = enqueue_lem k f3 v.fq3 q.fq3 (after3 v q.sleeping q.all) t h out in
    (m, rw e (runs ∙ ap (ok tt) (sym (set_priority_self (record k { mem = m }) t 3 e))), rest)
thread_set_priority_lower_lem v k q t (suc (suc (suc (suc n)))) h out e lt links =
    absurd (omega arith)
