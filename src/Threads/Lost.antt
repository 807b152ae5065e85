-- ===== src/Threads/Lost.antt =====
-- A ready thread that falls off its feedback queue. `list_remove` on the running thread, which
-- stands on no queue, empties a queue that it left empty, whatever came into the queue since.
use cau_assignments.Base.{
  ◌≡◌, refl, true, false, ◌&&◌, List, [], ◌∷◌, ◌++◌, map, map-append, arith, has, subst, sym, ap,
  ◌∙◌, ◌==◌,
}
use cau_assignments.Base.Run.{ok}
use cau_assignments.KernelList.Memory.{Ptr, null, Mem}
use cau_assignments.KernelList.Ops.{tail, list_remove, list_empty, list_pop_front}
use cau_assignments.KernelList.Lists.{nodes, IsList, has-nodes, SameOutside, real_list}
use cau_assignments.KernelList.Remove.{removed, list_remove-ok}
use cau_assignments.KernelList.Family.{
  Family-pop_front, Family-empty, has-snoc, Lists, Family, Family-Member, Family-change, all_nodes,
  has-all_nodes,
}
use cau_assignments.Threads.State.{
  Status, is_blocked, is_ready, Statics, Kernel, elem, set_priority, set_status,
}
use cau_assignments.Threads.Ops.{is_thread}
use cau_assignments.Threads.Queues.{enqueue, thread_set_priority_lower, next_thread_to_run}
use cau_assignments.Threads.Schedule.{thread_unblock}
use cau_assignments.Threads.View.{Queues, lists, after0, after1, Holds, Unlisted, append_level}
use cau_assignments.Threads.Lower.{requeue-runs}
use cau_assignments.Threads.Unblock.{enqueue_lem, thread_unblock_lem}

-- `list_remove` on an element whose links lead to the two headers of a list empties that list.
cleared :
    (m : Mem) (fs : Lists) (l : Ptr) (xs : List Ptr) (gs : Lists) (e : Ptr)
    → Family m (fs ++ (l, xs) ∷ gs)
    → m.prev e ≡ l
    → m.next e ≡ tail l
    → (e == null) ≡ false
    → (list_remove e m ≡ ok (tail l) (removed m e)) × Family (removed m e) (fs ++ (l, []) ∷ gs)
cleared m fs l xs gs e f p n real =
    let r = Family-Member fs l xs gs f in
    let is = r.list in
    let at = λ (x : Ptr). has-nodes x l xs in
    let empty : IsList (removed m e) l [] = record {
      linked = ground arith;
      start = ground (arith, is.start);
      stop = ground (arith, is.stop);
      distinct = ground arith;
      real = ground (arith, is.real, at null);
    } in
    (
      list_remove-ok m e real (ground (arith, real_list xs is)) (ground arith)
          ∙ ap (λ q. ok q (removed m e)) n,
      Family-change (removed m e) fs l xs [] gs (nodes l []) f empty (λ q h. ground arith)
          (λ q h. ground (arith, r.apart_before q, at q))
          (λ q h. ground (arith, r.apart_after q, at q))
          (λ q h. ground (arith, r.apart_before q, at q))
          (λ q h. ground (arith, r.apart_after q, at q)),
    )

-- The three steps: `cur` is taken off a queue of its own, `t` comes into that queue, `cur` yields.
pub record Dropped (v : Statics) (k : Kernel) (q : Queues) (cur t : Ptr) : Type 0 where
  pub dispatched : Kernel
  pub woken : Kernel
  pub lowered : Kernel
  pub runs_next : next_thread_to_run v k ≡ ok cur dispatched
  pub runs_unblock : thread_unblock v t dispatched ≡ ok tt woken
  pub runs_lower : thread_set_priority_lower v cur woken ≡ ok tt lowered
  pub holds : Holds v (record q { fq0 = []; fq1 = q.fq1 ++ cur ∷ [] }) lowered.mem
  pub lost : Unlisted v (record q { fq0 = []; fq1 = q.fq1 ++ cur ∷ [] }) t
  pub still_ready : is_ready (lowered.threads t).status ≡ true

next-runs :
    (v : Statics) (k : Kernel) (cur : Ptr) (m : Mem)
    → list_empty v.fq0 k.mem ≡ ok false k.mem
    → list_pop_front v.fq0 k.mem ≡ ok (elem cur) m
    → next_thread_to_run v k ≡ ok cur (record k { mem = m })
unfolding next_thread_to_run
next-runs v k cur m full runs = ground (arith, full, runs)

lower-runs :
    (v : Statics) (k : Kernel) (cur n : Ptr) (m m' : Mem)
    → (k.threads cur).priority ≡ 0
    → list_remove (elem cur) k.mem ≡ ok n m
    → enqueue v.fq1 cur (record k { mem = m }) ≡ ok tt (record k { mem = m' })
    → thread_set_priority_lower v cur k ≡ ok tt (set_priority cur 1 (record k { mem = m' }))
unfolding thread_set_priority_lower
lower-runs v k cur n m m' e removes runs = rw e (requeue-runs k v.fq1 1 cur n m m' removes runs)

-- A yield at level 0 of a thread whose links lead to both headers of queue 0 empties that queue,
-- whatever threads `xs` are on it.
lower_clears :
    (v : Statics) (k : Kernel) (q : Queues) (cur : Ptr) (xs : List Ptr)
    → Holds v (record q { fq0 = xs }) k.mem
    → Unlisted v (record q { fq0 = [] }) cur
    → (k.threads cur).priority ≡ 0
    → k.mem.prev (elem cur) ≡ v.fq0
    → k.mem.next (elem cur) ≡ tail v.fq0
    → (m : Mem) × (thread_set_priority_lower v cur k
        ≡ ok tt (set_priority cur 1 (record k { mem = m })))
      × Holds v (record q { fq0 = []; fq1 = q.fq1 ++ cur ∷ [] }) m
lower_clears v k q cur xs h out level prev next =
    let gs = after0 v q.fq1 q.fq2 q.fq3 q.sleeping q.all in
    let gs1 = after1 v q.fq2 q.fq3 q.sleeping q.all in
    let (removes, fam) =
      cleared k.mem [] v.fq0 (map elem xs) gs (elem cur) h prev next (ground arith) in
    let k' : Kernel = record k { mem = removed k.mem (elem cur) } in
    let (m, runs, fam', same) = enqueue_lem k' ((v.fq0, []) ∷ []) v.fq1 q.fq1 gs1 cur fam out in
    (m, lower-runs v k cur (tail v.fq0) (removed k.mem (elem cur)) m level removes runs, fam')

unblock_level0 :
    (v : Statics) (k : Kernel) (q : Queues) (t : Ptr)
    → Holds v q k.mem
    → Unlisted v q t
    → is_thread k t ≡ true
    → is_blocked (k.threads t).status ≡ true
    → (k.threads t).priority ≡ 0
    → (k.in_external_intr && k.intr_on) ≡ false
    → (m : Mem) × (thread_unblock v t k ≡ ok tt (set_status t Status.ready (record k { mem = m })))
      × Holds v (record q { fq0 = q.fq0 ++ t ∷ [] }) m
      × SameOutside (elem t ∷ all_nodes (lists v q)) k.mem m
unblock_level0 v k q t h out real blocked level intr =
    let (m, runs, fam, same) =
      thread_unblock_lem v k q t h out real blocked (omega (arith, level)) intr in
    let first : append_level 0 t q ≡ record q { fq0 = q.fq0 ++ t ∷ [] } =
      unfold append_level in refl in
    let it = ap (λ p. append_level p t q) level ∙ first in
    (m, runs, subst (λ r. Holds v r m) it fam, same)

Unlisted-popped :
    (v : Statics) (q : Queues) (cur t : Ptr)
    → Unlisted v (record q { fq0 = cur ∷ [] }) t
    → Unlisted v (record q { fq0 = [] }) t
Unlisted-popped v q cur t out = ground arith

-- `t` stands on no list when `cur` has moved from queue 0 to queue 1.
Unlisted-moved :
    (v : Statics) (q : Queues) (cur t : Ptr)
    → Unlisted v (record q { fq0 = cur ∷ [] }) t
    → Unlisted v (record q { fq0 = []; fq1 = q.fq1 ++ cur ∷ [] }) t
Unlisted-moved v q cur t out =
    let gs = after1 v q.fq2 q.fq3 q.sleeping q.all in
    let fs : Lists = (v.fq0, []) ∷ [] in
    let new = map elem q.fq1 ++ elem cur ∷ [] in
    let snoc : has (elem t) (all_nodes (fs ++ (v.fq1, new) ∷ gs)) ≡ false = ground (
      arith,
      Unlisted-popped v q cur t out,
      has-all_nodes (elem t) fs v.fq1 new gs,
      has-all_nodes (elem t) fs v.fq1 (map elem q.fq1) gs,
      has-snoc (elem t) v.fq1 (map elem q.fq1) (elem cur),
    ) in
    subst (λ zs. has (elem t) (all_nodes (fs ++ (v.fq1, zs) ∷ gs)) ≡ false)
      (sym (map-append elem q.fq1 (cur ∷ []))) snoc

-- The yield, after `cur` was taken off queue 0 and `t` came into it.
lost_steps :
    (v : Statics) (k : Kernel) (q : Queues) (cur t : Ptr) (m1 m2 : Mem)
    → let q0 : Queues = record q { fq0 = [] } in
      Holds v (record q { fq0 = cur ∷ [] }) k.mem
      → Unlisted v (record q { fq0 = cur ∷ [] }) t
      → Unlisted v q0 cur
      → (k.threads cur).priority ≡ 0
      → list_pop_front v.fq0 k.mem ≡ ok (elem cur) m1
      → SameOutside (all_nodes (lists v q0)) k.mem m1
      → thread_unblock v t (record k { mem = m1 })
        ≡ ok tt (set_status t Status.ready (record k { mem = m2 }))
      → Holds v (record q { fq0 = t ∷ [] }) m2
      → SameOutside (elem t ∷ all_nodes (lists v q0)) m1 m2
      → Dropped v k q cur t
lost_steps v k q cur t m1 m2 h out out1 level_cur pops same1 wakes fam2 same2 =
    let e = elem cur in
    let gs = after0 v q.fq1 q.fq2 q.fq3 q.sleeping q.all in
    let k2 : Kernel = set_status t Status.ready (record k { mem = m2 }) in
    let oute : has e (elem t ∷ all_nodes (lists v (record q { fq0 = [] }))) ≡ false =
      ground arith in
    let prev : m2.prev e ≡ v.fq0 = (same2 e oute).0 ∙ (same1 e out1).0 ∙ h.0.linked.1 in
    let next : m2.next e ≡ tail v.fq0 = (same2 e oute).1 ∙ (same1 e out1).1 ∙ h.0.linked.2.0 in
    let level_cur' : (k2.threads cur).priority ≡ 0 = ground (arith, level_cur) in
    let (m4, runs, fam4) = lower_clears v k2 q cur (t ∷ []) fam2 out1 level_cur' prev next in
    record {
      dispatched = record k { mem = m1 };
      woken = k2;
      lowered = set_priority cur 1 (record k2 { mem = m4 });
      runs_next = next-runs v k cur m1 (Family-empty k.mem [] v.fq0 (e ∷ []) gs h) pops;
      runs_unblock = wakes;
      runs_lower = runs;
      holds = fam4;
      lost = Unlisted-moved v q cur t out;
      still_ready = ground arith;
    }

-- When the thread that runs was alone in queue 0 and another thread of priority 0 is unblocked
-- before it yields, the yield drops that thread: queue 0 is empty, and the thread is ready but on no
-- list, so that no later call can run it.
pub lost_thread :
    (v : Statics) (k : Kernel) (q : Queues) (cur t : Ptr)
    → Holds v (record q { fq0 = cur ∷ [] }) k.mem
    → Unlisted v (record q { fq0 = cur ∷ [] }) t
    → is_thread k t ≡ true
    → is_blocked (k.threads t).status ≡ true
    → (k.threads t).priority ≡ 0
    → (k.threads cur).priority ≡ 0
    → (k.in_external_intr && k.intr_on) ≡ false
    → Dropped v k q cur t
lost_thread v k q cur t h out real blocked level_t level_cur intr =
    let gs = after0 v q.fq1 q.fq2 q.fq3 q.sleeping q.all in
    let q0 : Queues = record q { fq0 = [] } in
    let (m1, pops, fam1, out1, same1) = Family-pop_front k.mem [] v.fq0 (elem cur) [] gs h in
    let outt : Unlisted v q0 t = Unlisted-popped v q cur t out in
    let (m2, wakes, fam2, same2) =
      unblock_level0 v (record k { mem = m1 }) q0 t fam1 outt real blocked level_t intr in
    lost_steps v k q cur t m1 m2 h out out1 level_cur pops same1 wakes fam2 same2
