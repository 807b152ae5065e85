-- ===== src/Threads/View.antt =====
-- What the lists of threads/thread.c stand for: the threads on each, front to back.
use cau_assignments.Base.{ℕ, zero, suc, ◌≡◌, false, List, [], ◌∷◌, ◌++◌, map, arith, has}
use cau_assignments.KernelList.Memory.{Ptr, Mem}
use cau_assignments.KernelList.Family.{Lists, all_nodes, Family}
use cau_assignments.Threads.State.{Statics, elem, allelem, elem_entry}

pub record Queues : Type 0 where
  pub fq0 : List Ptr
  pub fq1 : List Ptr
  pub fq2 : List Ptr
  pub fq3 : List Ptr
  pub sleeping : List Ptr
  pub all : List Ptr

-- The lists that follow each feedback queue below.
module _ (v : Statics) where
  abbrev pub after3 : (sleeping all : List Ptr) → Lists
  after3 s l = (v.sleep_list, map elem s) ∷ (v.all_list, map allelem l) ∷ []

  abbrev pub after2 : (fq3 sleeping all : List Ptr) → Lists
  after2 d s l = (v.fq3, map elem d) ∷ after3 s l

  abbrev pub after1 : (fq2 fq3 sleeping all : List Ptr) → Lists
  after1 c d s l = (v.fq2, map elem c) ∷ after2 d s l

  abbrev pub after0 : (fq1 fq2 fq3 sleeping all : List Ptr) → Lists
  after0 b c d s l = (v.fq1, map elem b) ∷ after1 c d s l

  abbrev pub lists : Queues → Lists
  lists q = (v.fq0, map elem q.fq0) ∷ after0 q.fq1 q.fq2 q.fq3 q.sleeping q.all

-- The memory holds exactly these lists, and they share no element.
abbrev pub Holds : Statics → Queues → Mem → Type 0
Holds v q m = Family m (lists v q)

pub elem_entry-elem : (t : Ptr) → elem_entry (elem t) ≡ t
elem_entry-elem t = omega arith

-- The thread to run: the first one of the highest queue that is not empty, else the idle thread.
-- With it, the queues that are left.
unfoldable pub pick : Queues → Ptr → Ptr × Queues
pick q idle = elim q.fq0 [
  | t ∷ r ↦ (t, record q { fq0 = r })
  | [] ↦ elim q.fq1 [
    | t ∷ r ↦ (t, record q { fq1 = r })
    | [] ↦ elim q.fq2 [
      | t ∷ r ↦ (t, record q { fq2 = r })
      | [] ↦ elim q.fq3 [ t ∷ r ↦ (t, record q { fq3 = r }) | [] ↦ (idle, q) ]
    ]
  ]
]

-- The queues with `t` at the end of the queue of priority `p`; other priorities have no queue.
unfoldable pub append_level : ℕ → Ptr → Queues → Queues
append_level zero t q = record q { fq0 = q.fq0 ++ t ∷ [] }
append_level (suc zero) t q = record q { fq1 = q.fq1 ++ t ∷ [] }
append_level (suc (suc zero)) t q = record q { fq2 = q.fq2 ++ t ∷ [] }
append_level (suc (suc (suc zero))) t q = record q { fq3 = q.fq3 ++ t ∷ [] }
append_level (suc (suc (suc (suc n)))) t q = q

-- `elem` of `t` belongs to no list, and is no header.
abbrev pub Unlisted : Statics → Queues → Ptr → Type 0
Unlisted v q t = has (elem t) (all_nodes (lists v q)) ≡ false
