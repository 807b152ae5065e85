-- ===== src/Threads/Born.antt =====
-- What `thread_create` makes of a free page.
use cau_assignments.Base.{
  ℕ, ◌<◌, ◌≡◌, refl, false, ◌&&◌, List, [], ◌∷◌, ◌++◌, map, map-append, some, ◌==◌, arith, has,
  subst, sym, if◌then◌else◌,
}
use cau_assignments.Base.Run.{ok}
use cau_assignments.KernelList.Memory.{Ptr, null, Mem}
use cau_assignments.KernelList.Ops.{list_push_back}
use cau_assignments.KernelList.Family.{
  Lists, all_nodes, Family, Family-frame, Family-push_back, Apart-cons,
}
use cau_assignments.Threads.State.{Statics, Thread, Kernel, elem, allelem}
use cau_assignments.Threads.Ops.{intr_disable, intr_set_level}
use cau_assignments.Threads.View.{Queues, lists}
use cau_assignments.Threads.Schedule.{thread_unblock}
use cau_assignments.Threads.Synch.{Machine, Down, lock_acquire}
use cau_assignments.Threads.Create.{
  Loaded, Linked, Created, set_tid, set_age, take_tid, stack_frames, create_rest, thread_create,
  cleared, fresh, init_thread,
}

-- The lists of the kernel, with one more list `l` that is empty.
abbrev pub with_empty : Ptr → Lists → Lists
with_empty l ls = (l, []) ∷ ls

cleared-Family :
    (m : Mem) (ls : Lists) (t : Ptr)
    → Family m ls
    → has (elem t) (all_nodes ls) ≡ false
    → has (allelem t) (all_nodes ls) ≡ false
    → Family (cleared t m) ls
cleared-Family m ls t f a b =
    Family-frame (cleared t m) ls (elem t ∷ allelem t ∷ []) f (λ p h. (ground arith, ground arith))
      (Apart-cons (all_nodes ls) (elem t) (allelem t ∷ []) a
        (Apart-cons (all_nodes ls) (allelem t) [] b (λ p h. refl)))

-- The kernel with the new thread, still blocked.
abbrev pub born : Ptr → Thread → Mem → Kernel → Kernel
born t x m k = record k { mem = m; threads = λ p. if p == t then x else k.threads p }

init-runs :
    (v : Statics) (k : Kernel) (t : Ptr) (name : List ℕ) (p : ℕ) (m : Mem)
    → (t == null) ≡ false
    → p < 4
    → (k.in_external_intr && k.intr_on) ≡ false
    → list_push_back v.all_list (allelem t) (cleared t k.mem) ≡ ok tt m
    → init_thread v t (some name) p k ≡ ok tt (born t (fresh t name p) m k)
unfolding init_thread intr_disable intr_set_level
init-runs v k t name p m real lt intr pushes = ground (arith, pushes)

pub init_thread_lem :
    (v : Statics) (k : Kernel) (q : Queues) (l t : Ptr) (name : List ℕ) (p : ℕ)
    → Family k.mem (with_empty l (lists v q))
    → has (elem t) (all_nodes (with_empty l (lists v q))) ≡ false
    → has (allelem t) (all_nodes (with_empty l (lists v q))) ≡ false
    → (t == null) ≡ false
    → p < 4
    → (k.in_external_intr && k.intr_on) ≡ false
    → (m : Mem) × (init_thread v t (some name) p k ≡ ok tt (born t (fresh t name p) m k))
      × Family m (with_empty l (lists v (record q { all = q.all ++ t ∷ [] })))
init_thread_lem v k q l t name p f a b real lt intr =
    let fs : Lists =
      (l, [])
      ∷ (v.fq0, map elem q.fq0)
      ∷ (v.fq1, map elem q.fq1)
      ∷ (v.fq2, map elem q.fq2)
      ∷ (v.fq3, map elem q.fq3)
      ∷ (v.sleep_list, map elem q.sleeping)
      ∷ [] in
    let f' = cleared-Family k.mem (with_empty l (lists v q)) t f a b in
    let (m, pushes, left) =
      Family-push_back (cleared t k.mem) fs v.all_list (map allelem q.all) [] (allelem t) f' b
        (omega arith) in
    (
      m,
      init-runs v k t name p m real lt intr pushes,
      subst (λ zs. Family m (fs ++ (v.all_list, zs) ∷ [])) (sym (map-append allelem q.all (t ∷ [])))
          left.family,
    )

-- `create_rest` from its parts.
pub rest-runs :
    (v : Statics) (at : Linked) (s s' : Loaded) (t function aux n : Ptr) (w : Machine) (k' : Kernel)
    → take_tid v at s.machine ≡ ok n w
    → stack_frames v at t function aux
        (record s { machine = record w { kernel = set_age t 0 (set_tid t n w.kernel) } })
      ≡ ok tt s'
    → thread_unblock v t s'.machine.kernel ≡ ok tt k'
    → create_rest v at t function aux s
      ≡ ok (Created.tid n) (record s' { machine = record s'.machine { kernel = k' } })
unfolding create_rest
rest-runs v at s s' t function aux n w k' a b c = ground (arith, a, b, c)

pub create-runs :
    (v : Statics) (at : Linked) (s s' : Loaded) (t function aux : Ptr) (name : List ℕ) (p n : ℕ)
    (k1 : Kernel) (w : Machine)
    → (function == null) ≡ false
    → (t == null) ≡ false
    → init_thread v t (some name) p s.machine.kernel ≡ ok tt k1
    → lock_acquire v at.tid_lock (record s.machine { kernel = k1 }) ≡ ok Down.got w
    → create_rest v at t function aux (record s { machine = w }) ≡ ok (Created.tid n) s'
    → thread_create v at t (some name) p function aux s ≡ ok (Created.tid n) s'
unfolding thread_create
create-runs v at s s' t function aux name p n k1 w fun real a b c =
    ground (arith, fun, real, a, b, c)
