-- ===== src/Threads/Spawn.antt =====
-- `thread_create` of threads/thread.c, from a free page to a ready thread.
use cau_assignments.Base.{
  ℕ, ◌+◌, ◌%◌, ◌^◌, ◌<◌, ◌≡◌, refl, false, List, [], ◌∷◌, ◌++◌, map, map-append, some, ◌==◌, arith,
  has, subst, sym,
}
use cau_assignments.Base.Run.{ok}
use cau_assignments.KernelList.Memory.{Ptr, null, Mem}
use cau_assignments.KernelList.Family.{Lists, all_nodes, Family, has-all_nodes, has-snoc}
use cau_assignments.Threads.State.{Statics, Status, Thread, elem, allelem, set_status}
use cau_assignments.Threads.View.{Queues, lists, Holds, Unlisted, append_level}
use cau_assignments.Threads.Unblock.{thread_unblock_lem}
use cau_assignments.Threads.Synch.{Machine, Down, waiters, lock_sema, lock_acquire}
use cau_assignments.Threads.Locks.{InThread}
use cau_assignments.Threads.Acquire.{locked, lock_acquire-free}
use cau_assignments.Threads.Create.{
  Loaded, Linked, Created, set_tid, set_age, fresh, thread_create, init_thread, take_tid,
  stack_frames,
}
use cau_assignments.Threads.Frames.{frames, with_stack, with_word, stack_frames_lem}
use cau_assignments.Threads.Identifier.{counted, released, take_tid_lem}
use cau_assignments.Threads.Born.{with_empty, born, init_thread_lem, rest-runs, create-runs}

-- The queues with one more thread.
abbrev pub with_thread : Ptr → Queues → Queues
with_thread t q = record q { all = q.all ++ t ∷ [] }

-- The page `t` and the lock of the identifiers are as `thread_create` needs them.
pub record Spawns (v : Statics) (at : Linked) (s : Loaded) (q : Queues) (t : Ptr) : Type 0 where
  pub family :
      Family s.machine.kernel.mem (with_empty (waiters (lock_sema at.tid_lock)) (lists v q))
  pub free_elem :
      has (elem t) (all_nodes (with_empty (waiters (lock_sema at.tid_lock)) (lists v q))) ≡ false
  pub free_allelem :
      has (allelem t) (all_nodes (with_empty (waiters (lock_sema at.tid_lock)) (lists v q))) ≡ false
  pub page : (t == null) ≡ false
  pub fits : t + 4096 < 2 ^ 32
  pub other : (s.machine.kernel.current == t) ≡ false
  pub caller : InThread s.machine
  pub no_handler : s.machine.kernel.in_external_intr ≡ false
  pub lock : (at.tid_lock == null) ≡ false
  pub unheld : s.machine.holder at.tid_lock ≡ null
  pub available : s.machine.value (lock_sema at.tid_lock) ≡ 1

-- The new thread is ready, and nothing else has changed but the links and the next identifier.
pub record Spawned (v : Statics) (at : Linked) (s : Loaded) (q : Queues) (t : Ptr) (name : List ℕ)
    (p : ℕ) (function aux : Ptr) : Type 0 where
  pub after : Loaded
  pub runs :
      thread_create v at t (some name) p function aux s
      ≡ ok (Created.tid s.machine.kernel.next_tid) after
  pub holds : Holds v (append_level p t (with_thread t q)) after.machine.kernel.mem
  pub thread : after.machine.kernel.threads t ≡ record (fresh t name p) {
    tid = s.machine.kernel.next_tid;
    status = Status.ready;
    stack = t + 4052;
  }
  pub others :
      (r : Ptr) → (r == t) ≡ false → after.machine.kernel.threads r ≡ s.machine.kernel.threads r
  pub same_kernel : after.machine.kernel ≡ record s.machine.kernel {
    mem = after.machine.kernel.mem;
    threads = after.machine.kernel.threads;
    next_tid = (s.machine.kernel.next_tid + 1) % 2 ^ 32;
  }
  pub same_value : (r : Ptr) → after.machine.value r ≡ s.machine.value r
  pub same_holder : (r : Ptr) → after.machine.holder r ≡ s.machine.holder r
  pub words : after.word ≡ frames at (t + 4052) function aux s.word

-- The element for the ready queues is not the one for the list of all threads.
with_thread-Unlisted :
    (v : Statics) (q : Queues) (t : Ptr) → Unlisted v q t → Unlisted v (with_thread t q) t
with_thread-Unlisted v q t out =
    let fs : Lists =
      (v.fq0, map elem q.fq0)
      ∷ (v.fq1, map elem q.fq1)
      ∷ (v.fq2, map elem q.fq2)
      ∷ (v.fq3, map elem q.fq3)
      ∷ (v.sleep_list, map elem q.sleeping)
      ∷ [] in
    let old = has-all_nodes (elem t) fs v.all_list (map allelem q.all) [] in
    let new = has-all_nodes (elem t) fs v.all_list (map allelem q.all ++ allelem t ∷ []) [] in
    let more = has-snoc (elem t) v.all_list (map allelem q.all) (allelem t) in
    subst (λ zs. has (elem t) (all_nodes (fs ++ (v.all_list, zs) ∷ [])) ≡ false)
      (sym (map-append allelem q.all (t ∷ []))) (ground (arith, out, old, new, more))

-- The machine after `init_thread`, after `allocate_tid`, and with the stack frames.
abbrev inited : Loaded → Ptr → Thread → Mem → Machine
inited s t x m = record s.machine { kernel = born t x m s.machine.kernel }

abbrev numbered : Ptr → Loaded → Ptr → Thread → Mem → Machine
numbered l s t x m = released l (counted (locked l (inited s t x m)))

abbrev tagged : Ptr → Loaded → Ptr → Thread → Mem → Loaded
tagged l s t x m =
    let w = numbered l s t x m in
    record s {
      machine = record w { kernel = set_age t 0 (set_tid t s.machine.kernel.next_tid w.kernel) };
    }

abbrev framed : Linked → Loaded → Ptr → Thread → Mem → Ptr → Ptr → Loaded
framed at s t x m function aux =
    with_word (frames at (t + 4052) function aux s.word)
      (with_stack t (t + 4052) (tagged at.tid_lock s t x m))

-- The first half of `thread_create`, up to the new identifier.
numbered_lem :
    (v : Statics) (at : Linked) (s : Loaded) (q : Queues) (t : Ptr) (name : List ℕ) (p : ℕ)
    → Spawns v at s q t
    → p < 4
    → let l = at.tid_lock in
      let x = fresh t name p in
      (m : Mem) × (init_thread v t (some name) p s.machine.kernel ≡ ok tt (inited s t x m).kernel)
      × (lock_acquire v l (inited s t x m) ≡ ok Down.got (locked l (inited s t x m)))
      × (take_tid v at (locked l (inited s t x m))
          ≡ ok s.machine.kernel.next_tid (numbered l s t x m))
      × Family m (with_empty (waiters (lock_sema l)) (lists v (with_thread t q)))
numbered_lem v at s q t name p c lt =
    let l = at.tid_lock in
    let other = c.other in
    let in_thread = c.caller.thread in
    let running = c.caller.runs in
    let (m, inits, f) =
      init_thread_lem v s.machine.kernel q (waiters (lock_sema l)) t name p c.family c.free_elem
        c.free_allelem c.page lt c.caller.intr in
    let w = inited s t (fresh t name p) m in
    let i : InThread w = record {
      thread = ground arith;
      runs = ground arith;
      intr = c.caller.intr;
    } in
    let i' : InThread (locked l w) = record { thread = i.thread; runs = i.runs; intr = i.intr } in
    (
      m,
      inits,
      lock_acquire-free v w l i c.no_handler c.lock (ground (arith, c.unheld, in_thread))
          c.available,
      take_tid_lem v at (locked l w) (with_thread t q) i' c.lock f (ground arith),
      f,
    )

framed_lem :
    (v : Statics) (at : Linked) (s : Loaded) (t : Ptr) (name : List ℕ) (p : ℕ) (m : Mem)
    (function aux : Ptr)
    → (t == null) ≡ false
    → t + 4096 < 2 ^ 32
    → stack_frames v at t function aux (tagged at.tid_lock s t (fresh t name p) m)
      ≡ ok tt (framed at s t (fresh t name p) m function aux)
framed_lem v at s t name p m function aux page fits =
    stack_frames_lem v at (tagged at.tid_lock s t (fresh t name p) m) t (t + 4052) function aux
      (ground arith) (ground arith) (omega arith)

-- Let the lists be in memory, with no thread waiting for the lock of the identifiers, which is free; let
-- `t` be the address of a page below 2^32 that is not the running thread, with its list elements on
-- none of these lists; and let no interrupt handler run. Then `thread_create`, with a function and
-- one of the four levels, returns the next identifier. The new thread is at the end of the list of all
-- threads and of the feedback queue of its priority, ready, with up to 15 characters of its name, and
-- its stack holds the frames for `switch_threads`, `switch_entry` and `kernel_thread` with the function.
-- Identifiers count on, the lock is free, and nothing else changes but links.
pub thread_create_lem :
    (v : Statics) (at : Linked) (s : Loaded) (q : Queues) (t : Ptr) (name : List ℕ) (p : ℕ)
    (function aux : Ptr)
    → Spawns v at s q t
    → p < 4
    → (function == null) ≡ false
    → Spawned v at s q t name p function aux
thread_create_lem v at s q t name p function aux c lt real_function =
    let page = c.page in
    let x = fresh t name p in
    let (m, inits, acquires, takes, f) = numbered_lem v at s q t name p c lt in
    let stacks = framed_lem v at s t name p m function aux page c.fits in
    let s5 = framed at s t x m function aux in
    let k5 = s5.machine.kernel in
    let same : (k5.threads t).priority ≡ p = ground arith in
    let out : Unlisted v q t = ground (arith, c.free_elem) in
    let (m6, wakes, h6, apart) =
      thread_unblock_lem v k5 (with_thread t q) t f.2 (with_thread-Unlisted v q t out)
        (ground arith) (ground arith) (omega (arith, same)) c.caller.intr in
    let k6 = set_status t Status.ready (record k5 { mem = m6 }) in
    let s6 : Loaded = record s5 { machine = record s5.machine { kernel = k6 } } in
    let made =
      rest-runs v at (record s { machine = locked at.tid_lock (inited s t x m) }) s5 t function aux
        s.machine.kernel.next_tid (numbered at.tid_lock s t x m) k6 takes stacks wakes in
    record {
      after = s6;
      runs =
          create-runs v at s s6 t function aux name p s.machine.kernel.next_tid
            (inited s t x m).kernel (locked at.tid_lock (inited s t x m)) real_function page inits
            acquires made;
      holds = subst (λ y. Holds v (append_level y t (with_thread t q)) m6) same h6;
      thread = ground arith;
      others = λ r ne. ground arith;
      same_kernel = λ i. k6;
      same_value = λ r. ground (arith, c.available);
      same_holder = λ r. ground (arith, c.unheld);
      words = refl;
    }
