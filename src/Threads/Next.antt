-- ===== src/Threads/Next.antt =====
-- `next_thread_to_run` takes the first thread of the highest feedback queue that has one.
use cau_assignments.Base.{◌≡◌, List, [], ◌∷◌, map, arith}
use cau_assignments.Base.Run.{ok}
use cau_assignments.KernelList.Memory.{Ptr, Mem}
use cau_assignments.KernelList.Family.{Lists, Family-empty, Family-pop_front}
use cau_assignments.Threads.State.{Statics, Kernel, elem}
use cau_assignments.Threads.Queues.{next_thread_to_run}
use cau_assignments.Threads.View.{Queues, after0, after1, after2, after3, Holds, pick}

abbrev Picks : Statics → Kernel → Queues → Type 0
Picks v k q =
    (m : Mem) × (next_thread_to_run v k ≡ ok (pick q k.idle_thread).0 (record k { mem = m }))
    × Holds v (pick q k.idle_thread).1 m

picks :
    (v : Statics) (k : Kernel) (a b c d s l : List Ptr)
    → let q : Queues = record { fq0 = a; fq1 = b; fq2 = c; fq3 = d; sleeping = s; all = l } in
      Holds v q k.mem → Picks v k q
unfolding next_thread_to_run pick
picks v k (t ∷ r) b c d s l h =
    let empty0 = Family-empty k.mem [] v.fq0 (elem t ∷ map elem r) (after0 v b c d s l) h in
    let (m, runs, rest, out, same) =
      Family-pop_front k.mem [] v.fq0 (elem t) (map elem r) (after0 v b c d s l) h in
    (m, ground (arith, empty0, runs), rest)
picks v k [] (t ∷ r) c d s l h =
    let f1 : Lists = (v.fq0, []) ∷ [] in
    let empty0 = Family-empty k.mem [] v.fq0 [] (after0 v (t ∷ r) c d s l) h in
    let empty1 = Family-empty k.mem f1 v.fq1 (elem t ∷ map elem r) (after1 v c d s l) h in
    let (m, runs, rest, out, same) =
      Family-pop_front k.mem f1 v.fq1 (elem t) (map elem r) (after1 v c d s l) h in
    (m, ground (arith, empty0, empty1, runs), rest)
picks v k [] [] (t ∷ r) d s l h =
    let f1 : Lists = (v.fq0, []) ∷ [] in
    let f2 : Lists = (v.fq0, []) ∷ (v.fq1, []) ∷ [] in
    let empty0 = Family-empty k.mem [] v.fq0 [] (after0 v [] (t ∷ r) d s l) h in
    let empty1 = Family-empty k.mem f1 v.fq1 [] (after1 v (t ∷ r) d s l) h in
    let empty2 = Family-empty k.mem f2 v.fq2 (elem t ∷ map elem r) (after2 v d s l) h in
    let (m, runs, rest, out, same) =
      Family-pop_front k.mem f2 v.fq2 (elem t) (map elem r) (after2 v d s l) h in
    (m, ground (arith, empty0, empty1, empty2, runs), rest)
picks v k [] [] [] (t ∷ r) s l h =
    let f1 : Lists = (v.fq0, []) ∷ [] in
    let f2 : Lists = (v.fq0, []) ∷ (v.fq1, []) ∷ [] in
    let f3 : Lists = (v.fq0, []) ∷ (v.fq1, []) ∷ (v.fq2, []) ∷ [] in
    let empty0 = Family-empty k.mem [] v.fq0 [] (after0 v [] [] (t ∷ r) s l) h in
    let empty1 = Family-empty k.mem f1 v.fq1 [] (after1 v [] (t ∷ r) s l) h in
    let empty2 = Family-empty k.mem f2 v.fq2 [] (after2 v (t ∷ r) s l) h in
    let empty3 = Family-empty k.mem f3 v.fq3 (elem t ∷ map elem r) (after3 v s l) h in
    let (m, runs, rest, out, same) =
      Family-pop_front k.mem f3 v.fq3 (elem t) (map elem r) (after3 v s l) h in
    (m, ground (arith, empty0, empty1, empty2, empty3, runs), rest)
picks v k [] [] [] [] s l h =
    let f1 : Lists = (v.fq0, []) ∷ [] in
    let f2 : Lists = (v.fq0, []) ∷ (v.fq1, []) ∷ [] in
    let f3 : Lists = (v.fq0, []) ∷ (v.fq1, []) ∷ (v.fq2, []) ∷ [] in
    let empty0 = Family-empty k.mem [] v.fq0 [] (after0 v [] [] [] s l) h in
    let empty1 = Family-empty k.mem f1 v.fq1 [] (after1 v [] [] s l) h in
    let empty2 = Family-empty k.mem f2 v.fq2 [] (after2 v [] s l) h in
    let empty3 = Family-empty k.mem f3 v.fq3 [] (after3 v s l) h in
    (k.mem, ground (arith, empty0, empty1, empty2, empty3), h)

-- With the lists of `q` in memory, `next_thread_to_run` returns the thread that `pick` names and
-- leaves the lists that `pick` leaves: the first thread of the highest feedback queue that has one is
-- taken off its queue, and with all four empty it is the idle thread. Nothing but links changes.
pub next_thread_to_run_lem :
    (v : Statics) (k : Kernel) (q : Queues)
    → Holds v q k.mem
    → (m : Mem) × (next_thread_to_run v k ≡ ok (pick q k.idle_thread).0 (record k { mem = m }))
      × Holds v (pick q k.idle_thread).1 m
next_thread_to_run_lem v k q = picks v k q.fq0 q.fq1 q.fq2 q.fq3 q.sleeping q.all
