-- ===== src/Threads/Wakeup.antt =====
-- `thread_wakeup` of threads/thread.c: every sleeping thread whose tick has come becomes ready, the
-- others stay asleep, and the next tick to wake up at is the earliest of theirs.
pub mod Spec
mod Rounds
use cau_assignments.Base.{
  ℕ, zero, suc, ◌<◌, ◌≡◌, refl, Bool, true, false, not, ◌&&◌, List, [], ◌∷◌, ◌++◌, map, map-append,
  append_assoc, append-nil, arith, has, length, ◌==◌, if◌then◌else◌, subst, sym, ◌∙◌, Bool-cases,
  inl, inr, ap,
}
use cau_assignments.Base.Run.{Run, ok}
use cau_assignments.Base.Words.{le_int64, gt_int64, int64_max}
use cau_assignments.KernelList.Memory.{Ptr, Mem}
use cau_assignments.KernelList.Ops.{tail, list_remove, list_next, list_end, list_begin}
use cau_assignments.KernelList.Lists.{IsList, first, has-ne, has-cut}
use cau_assignments.KernelList.Step.{list_next_lem, list_end_lem, list_begin_lem, elem-ne-tail}
use cau_assignments.KernelList.Family.{
  Lists, Family, Family-Member, Family-remove, all_nodes, has-all_nodes,
}
use cau_assignments.Threads.State.{
  Status, is_blocked, Statics, Thread, Kernel, elem, elem_entry, allelem, on_mem, on_mem-ok,
  set_status,
}
use cau_assignments.Threads.Ops.{is_thread}
use cau_assignments.Threads.Schedule.{thread_unblock}
use cau_assignments.Threads.Sleep.{update_next_tick_to_wakeup, wakeup_loop, thread_wakeup}
use cau_assignments.Threads.View.{Queues, lists, Holds, Unlisted, append_level, elem_entry-elem}
use cau_assignments.Threads.Unblock.{thread_unblock_lem}
use Spec.{
  with_sleeping, wake, next_tick, keep, is_due, woken_queues, wake_levels, append_level-sleeping,
}
use Rounds.{
  front, back, Sleepers, Sleepers-frame, has-map-elem, round_due, round_later, round_end, Woke,
  Woke-due, Woke-later, Woke-nil,
}

abbrev Wakes :
    Statics → ℕ → ℕ → (Ptr → ℕ) → (Ptr → ℕ) → List Ptr → List Ptr → Queues → Kernel → Type 0
Wakes v n now tick prio done todo q k =
    (k' : Kernel) × (wakeup_loop v n now (first (map elem todo) (tail v.sleep_list)) k ≡ ok tt k')
    × Woke v (is_due now tick) tick prio done todo q k k'

-- A thread that is due leaves the sleeping threads and is made ready.
module _ (v : Statics) (n now : ℕ) (tick prio : Ptr → ℕ) (done : List Ptr) (t : Ptr)
    (todo : List Ptr) (q : Queues) (k : Kernel)
    (f : Family k.mem
      (front v q ++ (v.sleep_list, map elem done ++ elem t ∷ map elem todo) ∷ back v q))
    (s : Sleepers k tick prio (t ∷ todo)) (intr : (k.in_external_intr && k.intr_on) ≡ false) where
  Wakes-due :
      is_due now tick t ≡ true
      → ((k' : Kernel)
          → Holds v (with_sleeping (done ++ todo) (append_level (prio t) t q)) k'.mem
          → Sleepers k' tick prio todo
          → (k'.in_external_intr && k'.intr_on) ≡ false
          → Wakes v n now tick prio done todo (append_level (prio t) t q) k')
      → Wakes v (suc n) now tick prio done (t ∷ todo) q k
  Wakes-due d loop =
      let is = (Family-Member (front v q) v.sleep_list _ (back v q) f).list in
      let (m1, removed, fam, out, same1) =
        Family-remove k.mem (front v q) v.sleep_list (map elem done) (elem t) (map elem todo)
          (back v q) f in
      let joined = sym (map-append elem done todo) in
      let q1 : Queues = with_sleeping (done ++ todo) q in
      let k1 : Kernel = record k { mem = m1 } in
      let fam1 : Holds v q1 m1 =
        subst (λ zs. Family m1 (front v q ++ (v.sleep_list, zs) ∷ back v q)) joined fam in
      let out1 : Unlisted v q1 t =
        subst (λ zs. has (elem t) (all_nodes (front v q ++ (v.sleep_list, zs) ∷ back v q)) ≡ false)
          joined out in
      let (m2, woken, fam2, same2) =
        thread_unblock_lem v k1 q1 t fam1 out1 s.0 s.1 (omega (arith, s.3, s.4)) intr in
      let k2 : Kernel = set_status t Status.ready (record k1 { mem = m2 }) in
      let here =
        has-all_nodes (elem t) (front v q) v.sleep_list (map elem done ++ map elem todo)
          (back v q) in
      let cut = has-cut (elem t) v.sleep_list (map elem done) (map elem todo) in
      let single : has t todo ≡ false = ground (arith, out, here, cut, has-map-elem t todo) in
      let fam2' : Holds v (with_sleeping (done ++ todo) (append_level (prio t) t q)) m2 =
        subst (λ r. Holds v r m2) (append_level-sleeping (prio t) t (done ++ todo) q)
          (subst (λ p. Holds v (append_level p t q1) m2) s.3 fam2) in
      let asleep : Sleepers k2 tick prio todo =
        Sleepers-frame k k2 tick prio todo s.5
          (λ p hp. let ne = has-ne p t todo hp single in rw ne) in
      let (k', runs, w) = loop k2 fam2' asleep intr in
      (
        k',
        round_due v n now k (elem t) t (tail v.sleep_list)
              (first (map elem todo) (tail v.sleep_list)) (elem_entry-elem t)
              (list_end_lem k.mem v.sleep_list _ is)
              (elem-ne-tail k.mem v.sleep_list (map elem done) (elem t) (map elem todo) is)
              (subst (λ w. le_int64 w now ≡ true) (sym s.2) d) removed woken
            ∙ runs,
        Woke-due v (is_due now tick) tick prio done t todo q k k' m2 d w,
      )

  -- A thread that is not due stays.
  Wakes-later :
      is_due now tick t ≡ false
      → ((k' : Kernel)
          → Holds v (with_sleeping ((done ++ t ∷ []) ++ todo) q) k'.mem
          → Sleepers k' tick prio todo
          → (k'.in_external_intr && k'.intr_on) ≡ false
          → Wakes v n now tick prio (done ++ t ∷ []) todo q k')
      → Holds v (with_sleeping ((done ++ t ∷ []) ++ todo) q) k.mem
      → Wakes v (suc n) now tick prio done (t ∷ todo) q k
  Wakes-later d loop h =
      let is = (Family-Member (front v q) v.sleep_list _ (back v q) f).list in
      let k1 : Kernel = record k {
        next_tick_to_wakeup =
            if gt_int64 k.next_tick_to_wakeup (tick t) then tick t else k.next_tick_to_wakeup;
      } in
      let (k', runs, w) = loop k1 h (Sleepers-frame k k1 tick prio todo s.5 (λ p hp. refl)) intr in
      (
        k',
        round_later v n now k (elem t) t (tail v.sleep_list)
              (first (map elem todo) (tail v.sleep_list)) (elem_entry-elem t)
              (list_end_lem k.mem v.sleep_list _ is)
              (elem-ne-tail k.mem v.sleep_list (map elem done) (elem t) (map elem todo) is) (tick t)
              s.2 d (list_next_lem k.mem v.sleep_list (map elem done) (elem t) (map elem todo) is)
            ∙ runs,
        Woke-later v (is_due now tick) tick prio done t todo q k k' d w,
      )

wakeup_loop-Wakes :
    (v : Statics) (n now : ℕ) (tick prio : Ptr → ℕ) (done todo : List Ptr) (q : Queues) (k : Kernel)
    → Holds v (with_sleeping (done ++ todo) q) k.mem
    → Sleepers k tick prio todo
    → (k.in_external_intr && k.intr_on) ≡ false
    → length todo < n
    → Wakes v n now tick prio done todo q k
wakeup_loop-Wakes v zero now tick prio done todo q k h s intr lt = absurd (omega arith)
wakeup_loop-Wakes v (suc n) now tick prio done [] q k h s intr lt =
    let is = (Family-Member (front v q) v.sleep_list _ (back v q) h).list in
    (
      k,
      round_end v n now k (tail v.sleep_list) (list_end_lem k.mem v.sleep_list _ is),
      Woke-nil v (is_due now tick) tick prio done (tail v.sleep_list) [] q k k h,
    )
wakeup_loop-Wakes v (suc n) now tick prio done (t ∷ todo) q k h s intr lt =
    let f =
      subst (λ zs. Family k.mem (front v q ++ (v.sleep_list, zs) ∷ back v q))
        (map-append elem done (t ∷ todo)) h in
    elim (Bool-cases (is_due now tick t)) [
      | inl d ↦ Wakes-due v n now tick prio done t todo q k f s intr d (λ k' h' s' i'.
          wakeup_loop-Wakes v n now tick prio done todo (append_level (prio t) t q) k' h' s' i'
            (omega arith))
      | inr d ↦
          Wakes-later v n now tick prio done t todo q k f s intr d
            (λ k' h' s' i'.
              wakeup_loop-Wakes v n now tick prio (done ++ t ∷ []) todo q k' h' s' i' (omega arith))
            (subst (λ zs. Holds v (with_sleeping zs q) k.mem)
              (sym (append_assoc done (t ∷ []) todo)) h)
    ]

-- The threads that sleep are blocked threads of the four levels.
abbrev pub Asleep : Kernel → List Ptr → Type 0
Asleep k = Sleepers k (λ t. (k.threads t).wakeup_tick) (λ t. (k.threads t).priority)

wakeup-runs :
    (v : Statics) (fuel now : ℕ) (k k' : Kernel) (e : Ptr)
    → list_begin v.sleep_list k.mem ≡ ok e k.mem
    → wakeup_loop v fuel now e (record k { next_tick_to_wakeup = int64_max }) ≡ ok tt k'
    → thread_wakeup v fuel now k ≡ ok tt k'
unfolding thread_wakeup
wakeup-runs v fuel now k k' e begin runs = ground (arith, begin, runs)

-- With more rounds than there are sleeping threads, all of them blocked, `thread_wakeup (now)`
-- ends. It appends the threads whose tick is at most `now` to the feedback queues of their
-- priorities, in the order in which they slept, and makes exactly these ready; the others stay
-- asleep in their order. The next tick to wake up at is computed from the ticks of the others, and
-- no other variable changes.
pub thread_wakeup_lem :
    (v : Statics) (fuel now : ℕ) (k : Kernel) (q : Queues)
    → Holds v q k.mem
    → Asleep k q.sleeping
    → (k.in_external_intr && k.intr_on) ≡ false
    → length q.sleeping < fuel
    → let tick = λ (t : Ptr). (k.threads t).wakeup_tick in
      let due = is_due now tick in
      (k' : Kernel) × (thread_wakeup v fuel now k ≡ ok tt k')
      × Holds v (woken_queues due (λ t. (k.threads t).priority) [] q.sleeping q) k'.mem
      × ((p : Ptr)
          → k'.threads p ≡ (
              if has p (keep due q.sleeping)
              then record (k.threads p) { status = Status.ready }
              else k.threads p))
      × (k'.next_tick_to_wakeup ≡ next_tick due tick int64_max q.sleeping)
      × (k' ≡ record k {
        mem = k'.mem;
        threads = k'.threads;
        next_tick_to_wakeup = k'.next_tick_to_wakeup;
      })
thread_wakeup_lem v fuel now k q h s intr lt =
    let tick = λ (t : Ptr). (k.threads t).wakeup_tick in
    let prio = λ (t : Ptr). (k.threads t).priority in
    let k0 : Kernel = record k { next_tick_to_wakeup = int64_max } in
    let is = (Family-Member (front v q) v.sleep_list _ (back v q) h).list in
    let (k', runs, w) =
      wakeup_loop-Wakes v fuel now tick prio [] q.sleeping q k0 h
        (Sleepers-frame k k0 tick prio q.sleeping s (λ p hp. refl)) intr lt in
    (
      k',
      wakeup-runs v fuel now k k' (first (map elem q.sleeping) (tail v.sleep_list))
          (list_begin_lem k.mem v.sleep_list _ is) runs,
      subst (λ r. Holds v r k'.mem) (wake_levels (is_due now tick) prio [] q.sleeping q) w.holds,
      w.woken,
      w.next,
      w.rest,
    )
