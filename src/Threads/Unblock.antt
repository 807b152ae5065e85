-- ===== src/Threads/Unblock.antt =====
-- `thread_list_push_back` and `thread_unblock` make a thread ready.
use cau_assignments.Base.{
  ℕ, zero, suc, ◌<◌, ◌≡◌, refl, true, false, ◌&&◌, List, [], ◌∷◌, ◌++◌, map, map-append, arith, has,
  subst, sym,
}
use cau_assignments.Base.Run.{ok}
use cau_assignments.KernelList.Memory.{Ptr, Mem}
use cau_assignments.KernelList.Family.{Lists, all_nodes, Family, Family-push_back}
use cau_assignments.KernelList.Lists.{SameOutside}
use cau_assignments.Threads.State.{Status, is_blocked, Statics, Kernel, elem, on_mem-ok, set_status}
use cau_assignments.KernelList.Ops.{list_push_back}
use cau_assignments.Threads.Ops.{is_thread, intr_disable, intr_set_level}
use cau_assignments.Threads.Queues.{enqueue, thread_list_push_back}
use cau_assignments.Threads.Schedule.{thread_unblock}
use cau_assignments.Threads.View.{
  Queues, lists, after0, after1, after2, after3, Holds, Unlisted, append_level,
}

pub enqueue_lem :
    (k : Kernel) (fs : Lists) (l : Ptr) (xs : List Ptr) (gs : Lists) (t : Ptr)
    → Family k.mem (fs ++ (l, map elem xs) ∷ gs)
    → has (elem t) (all_nodes (fs ++ (l, map elem xs) ∷ gs)) ≡ false
    → (m : Mem) × (enqueue l t k ≡ ok tt (record k { mem = m }))
      × Family m (fs ++ (l, map elem (xs ++ t ∷ [])) ∷ gs)
      × SameOutside (elem t ∷ all_nodes (fs ++ (l, map elem xs) ∷ gs)) k.mem m
enqueue_lem k fs l xs gs t f out =
    let (m, runs, left) =
      Family-push_back k.mem fs l (map elem xs) gs (elem t) f out (omega arith) in
    (
      m,
      on_mem-ok (list_push_back l (elem t)) k runs,
      subst (λ zs. Family m (fs ++ (l, zs) ∷ gs)) (sym (map-append elem xs (t ∷ []))) left.family,
      left.same,
    )

abbrev Appends : Statics → Kernel → Queues → Ptr → ℕ → Type 0
Appends v k q t p =
    (m : Mem) × (thread_list_push_back v t k ≡ ok tt (record k { mem = m }))
    × Holds v (append_level p t q) m
    × SameOutside (elem t ∷ all_nodes (lists v q)) k.mem m

-- `thread_list_push_back` puts a thread that is on no list at the end of the queue of its priority.
pub thread_list_push_back_lem :
    (v : Statics) (k : Kernel) (q : Queues) (t : Ptr) (p : ℕ)
    → Holds v q k.mem
    → Unlisted v q t
    → (k.threads t).priority ≡ p
    → p < 4
    → Appends v k q t p
unfolding thread_list_push_back append_level
thread_list_push_back_lem v k q t zero h out e lt =
    let (m, runs, rest, same) =
      enqueue_lem k [] v.fq0 q.fq0 (after0 v q.fq1 q.fq2 q.fq3 q.sleeping q.all) t h out in
    (m, rw e runs, rest, same)
thread_list_push_back_lem v k q t (suc zero) h out e lt =
    let (m, runs, rest, same) =
      enqueue_lem k ((v.fq0, map elem q.fq0) ∷ []) v.fq1 q.fq1
        (after1 v q.fq2 q.fq3 q.sleeping q.all) t h out in
    (m, rw e runs, rest, same)
thread_list_push_back_lem v k q t (suc (suc zero)) h out e lt =
    let (m, runs, rest, same) =
      enqueue_lem k ((v.fq0, map elem q.fq0) ∷ (v.fq1, map elem q.fq1) ∷ []) v.fq2 q.fq2
        (after2 v q.fq3 q.sleeping q.all) t h out in
    (m, rw e runs, rest, same)
thread_list_push_back_lem v k q t (suc (suc (suc zero))) h out e lt =
    let (m, runs, rest, same) =
      enqueue_lem k
        ((v.fq0, map elem q.fq0) ∷ (v.fq1, map elem q.fq1) ∷ (v.fq2, map elem q.fq2) ∷ []) v.fq3
        q.fq3 (after3 v q.sleeping q.all) t h out in
    (m, rw e runs, rest, same)
thread_list_push_back_lem v k q t (suc (suc (suc (suc n)))) h out e lt = absurd (omega arith)

unblock-runs :
    (v : Statics) (k : Kernel) (t : Ptr) (m : Mem)
    → let k0 : Kernel = record k { intr_on = false } in
      thread_list_push_back v t k0 ≡ ok tt (record k0 { mem = m })
      → is_thread k t ≡ true
      → is_blocked (k.threads t).status ≡ true
      → (k.in_external_intr && k.intr_on) ≡ false
      → thread_unblock v t k ≡ ok tt (set_status t Status.ready (record k { mem = m }))
unfolding thread_unblock intr_disable intr_set_level
unblock-runs v k t m runs real blocked intr = ground arith

-- `thread_unblock` puts a blocked thread that is on no list at the end of the feedback queue of its
-- priority and makes it ready; nothing else of the kernel changes, and the interrupt level is what
-- it was.
pub thread_unblock_lem :
    (v : Statics) (k : Kernel) (q : Queues) (t : Ptr)
    → Holds v q k.mem
    → Unlisted v q t
    → is_thread k t ≡ true
    → is_blocked (k.threads t).status ≡ true
    → (k.threads t).priority < 4
    → (k.in_external_intr && k.intr_on) ≡ false
    → (m : Mem) × (thread_unblock v t k ≡ ok tt (set_status t Status.ready (record k { mem = m })))
      × Holds v (append_level (k.threads t).priority t q) m
      × SameOutside (elem t ∷ all_nodes (lists v q)) k.mem m
thread_unblock_lem v k q t h out real blocked lt intr =
    let k0 : Kernel = record k { intr_on = false } in
    let (m, runs, rest, same) =
      thread_list_push_back_lem v k0 q t (k.threads t).priority h out refl lt in
    (m, unblock-runs v k t m runs real blocked intr, rest, same)
