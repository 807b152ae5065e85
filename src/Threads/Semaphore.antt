-- ===== src/Threads/Semaphore.antt =====
-- `sema_try_down` and `sema_up` (threads/synch.c), with the thread that `sema_up` wakes.
use cau_assignments.Base.{
  ℕ, zero, suc, ◌+◌, ◌-◌, ◌%◌, ◌^◌, ◌<◌, ◌≡◌, true, false, ◌&&◌, List, [], ◌∷◌, ◌++◌, ◌==◌, map,
  map-append, arith, has, has-append, subst, sym, if◌then◌else◌,
}
use cau_assignments.Base.Run.{ok}
use cau_assignments.KernelList.Memory.{Ptr, null, Mem}
use cau_assignments.KernelList.Ops.{list_empty, list_pop_front}
use cau_assignments.KernelList.Lists.{nodes, IsList-frame, has-ne}
use cau_assignments.KernelList.Family.{
  Lists, all_nodes, Family, Family-pop_front, Family-empty, has-all_nodes, has-snoc,
}
use cau_assignments.Threads.State.{
  Status, is_blocked, Statics, Kernel, elem, elem_entry, set_status,
}
use cau_assignments.Threads.Ops.{is_thread, intr_disable, intr_set_level}
use cau_assignments.Threads.Schedule.{thread_unblock}
use cau_assignments.Threads.View.{
  Queues, lists, after0, after1, after2, after3, Unlisted, append_level, elem_entry-elem,
}
use cau_assignments.Threads.Unblock.{thread_unblock_lem}
use cau_assignments.Threads.Synch.{Machine, set_value, waiters, sema_try_down, sema_up}

-- `sema_try_down` takes one from a semaphore that is not 0 and returns true, else it changes nothing
-- and returns false; the interrupt level is what it was.
pub sema_try_down_lem :
    (w : Machine) (s : Ptr)
    → (s == null) ≡ false
    → (w.kernel.in_external_intr && w.kernel.intr_on) ≡ false
    → sema_try_down s w
      ≡ (if w.value s == 0 then ok false w else ok true (set_value s (w.value s - 1) w))
unfolding sema_try_down intr_disable intr_set_level
sema_try_down_lem w s real intr = ground arith

up-empty :
    (v : Statics) (w : Machine) (s : Ptr)
    → (s == null) ≡ false
    → (w.kernel.in_external_intr && w.kernel.intr_on) ≡ false
    → list_empty (waiters s) w.kernel.mem ≡ ok true w.kernel.mem
    → sema_up v s w ≡ ok tt (set_value s ((w.value s + 1) % 2 ^ 32) w)
unfolding sema_up intr_disable intr_set_level
up-empty v w s real intr empty = ground (arith, empty)

up-wakes :
    (v : Statics) (w : Machine) (s t : Ptr) (m m' : Mem)
    → (s == null) ≡ false
    → (w.kernel.in_external_intr && w.kernel.intr_on) ≡ false
    → list_empty (waiters s) w.kernel.mem ≡ ok false w.kernel.mem
    → list_pop_front (waiters s) w.kernel.mem ≡ ok (elem t) m
    → let k0 : Kernel = record w.kernel { intr_on = false } in
      thread_unblock v t (record k0 { mem = m })
        ≡ ok tt (set_status t Status.ready (record k0 { mem = m' }))
      → elem_entry (elem t) ≡ t
      → sema_up v s w
        ≡ ok tt (
            set_value s
              ((w.value s + 1) % 2 ^ 32)
              (record w { kernel = set_status t Status.ready (record w.kernel { mem = m' }) }))
unfolding sema_up intr_disable intr_set_level
up-wakes v w s t m m' real intr full pops wakes entry = ground (arith, full, pops, wakes, entry)

-- What is no node of some lists is none after `t` came to the end of one.
snoc-outside :
    (fs : Lists) (l : Ptr) (xs : List Ptr) (gs : Lists) (t p : Ptr)
    → has p (all_nodes (fs ++ (l, map elem xs) ∷ gs)) ≡ false
    → (p == elem t) ≡ false
    → has p (all_nodes (fs ++ (l, map elem (xs ++ t ∷ [])) ∷ gs)) ≡ false
snoc-outside fs l xs gs t p out ne =
    subst (λ zs. has p (all_nodes (fs ++ (l, zs) ∷ gs)) ≡ false) (sym (map-append elem xs (t ∷ [])))
      (ground (
        arith,
        has-all_nodes p fs l (map elem xs) gs,
        has-all_nodes p fs l (map elem xs ++ elem t ∷ []) gs,
        has-snoc p l (map elem xs) (elem t),
      ))

append_level-outside :
    (v : Statics) (q : Queues) (n t p : ℕ)
    → has p (all_nodes (lists v q)) ≡ false
    → (p == elem t) ≡ false
    → has p (all_nodes (lists v (append_level n t q))) ≡ false
unfolding append_level
append_level-outside v q zero t p out ne =
    snoc-outside [] v.fq0 q.fq0 (after0 v q.fq1 q.fq2 q.fq3 q.sleeping q.all) t p out ne
append_level-outside v q (suc zero) t p out ne =
    snoc-outside ((v.fq0, map elem q.fq0) ∷ []) v.fq1 q.fq1 (after1 v q.fq2 q.fq3 q.sleeping q.all)
      t p out ne
append_level-outside v q (suc (suc zero)) t p out ne =
    snoc-outside ((v.fq0, map elem q.fq0) ∷ (v.fq1, map elem q.fq1) ∷ []) v.fq2 q.fq2
      (after2 v q.fq3 q.sleeping q.all) t p out ne
append_level-outside v q (suc (suc (suc zero))) t p out ne =
    snoc-outside ((v.fq0, map elem q.fq0) ∷ (v.fq1, map elem q.fq1) ∷ (v.fq2, map elem q.fq2) ∷ [])
      v.fq3 q.fq3 (after3 v q.sleeping q.all) t p out ne
append_level-outside v q (suc (suc (suc (suc n)))) t p out ne = out

-- With no thread waiting, `sema_up` only adds one to the value of the semaphore.
pub sema_up_lem-empty :
    (v : Statics) (w : Machine) (q : Queues) (s : Ptr)
    → Family w.kernel.mem ((waiters s, []) ∷ lists v q)
    → (s == null) ≡ false
    → (w.kernel.in_external_intr && w.kernel.intr_on) ≡ false
    → sema_up v s w ≡ ok tt (set_value s ((w.value s + 1) % 2 ^ 32) w)
sema_up_lem-empty v w q s f real intr =
    up-empty v w s real intr (Family-empty w.kernel.mem [] (waiters s) [] (lists v q) f)

-- With threads waiting, of which the first is blocked and of one of the four levels, `sema_up` adds
-- one to the value of the semaphore, takes this thread off its list, puts it at the end of the
-- feedback queue of its priority and makes it ready. The other waiting threads keep their order,
-- and the interrupt level is what it was.
pub sema_up_lem :
    (v : Statics) (w : Machine) (q : Queues) (s t : Ptr) (ts : List Ptr)
    → Family w.kernel.mem ((waiters s, map elem (t ∷ ts)) ∷ lists v q)
    → (s == null) ≡ false
    → is_thread w.kernel t ≡ true
    → is_blocked (w.kernel.threads t).status ≡ true
    → (w.kernel.threads t).priority < 4
    → (w.kernel.in_external_intr && w.kernel.intr_on) ≡ false
    → (m : Mem) × (sema_up v s w
        ≡ ok tt (
            set_value s
              ((w.value s + 1) % 2 ^ 32)
              (record w { kernel = set_status t Status.ready (record w.kernel { mem = m }) })))
      × Family m
          ((waiters s, map elem ts) ∷ lists v (append_level (w.kernel.threads t).priority t q))
sema_up_lem v w q s t ts f real thread blocked lt intr =
    let l = waiters s in
    let p0 = (w.kernel.threads t).priority in
    let (m1, pops, fam, out, _) =
      Family-pop_front w.kernel.mem [] l (elem t) (map elem ts) (lists v q) f in
    let k1 : Kernel = record w.kernel { intr_on = false; mem = m1 } in
    let cut = λ (p : Ptr). has-append p (nodes l (map elem ts)) (all_nodes (lists v q)) in
    let out_t : Unlisted v q t = ground (arith, cut (elem t)) in
    let out_w : has (elem t) (nodes l (map elem ts)) ≡ false = ground (arith, cut (elem t)) in
    let (m2, wakes, fam2, same) =
      thread_unblock_lem v k1 q t fam.2 out_t thread blocked lt (ground arith) in
    let ne = λ (p : Ptr) (h : has p (nodes l (map elem ts)) ≡ true).
      has-ne p (elem t) (nodes l (map elem ts)) h out_w in
    (
      m2,
      up-wakes v w s t m1 m2 real intr
          (Family-empty w.kernel.mem [] l (map elem (t ∷ ts)) (lists v q) f) pops wakes
          (elem_entry-elem t),
      (
        IsList-frame m2 l (map elem ts) (elem t ∷ all_nodes (lists v q)) fam.0 same
            (λ p h. ground (arith, ne p h, fam.1 p h)),
        λ p h. append_level-outside v q p0 t p (fam.1 p h) (ne p h),
        fam2,
      ),
    )
