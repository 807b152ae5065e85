-- ===== src/Tests/Walks.antt =====
-- Tests of the walks along lists.
use cau_assignments.Base.{◌≡◌, refl, List, [], ◌∷◌, ◌++◌, arith, ltb}
use cau_assignments.Base.Run.{ok}
use cau_assignments.KernelList.Memory.{Ptr, Mem}
use cau_assignments.KernelList.Lists.{IsList}
use cau_assignments.KernelList.Insert.{Inserts}
use cau_assignments.KernelList.Walk.{list_insert_ordered}
use cau_assignments.KernelList.Ordered.{Place, list_insert_ordered_lem}
use cau_assignments.KernelList.Maximum.{StrictOrder}
use cau_assignments.Tests.Sample.{memory}

abbrev m : Mem
m = memory ((0x100, 0x200 ∷ 0x300 ∷ []) ∷ [])

m-IsList : IsList m 0x100 (0x200 ∷ 0x300 ∷ [])
m-IsList = record {
  linked = ground arith;
  start = refl;
  stop = refl;
  distinct = ground arith;
  real = refl;
}

list_insert_ordered_lem_example :
    (front back : List Ptr) × Place ltb 0x280 (0x200 ∷ 0x300 ∷ []) front back
    × (m' : Mem) × (list_insert_ordered ltb 3 0x100 0x280 m ≡ ok tt m')
    × Inserts m 0x100 0x280 (0x200 ∷ 0x300 ∷ []) (front ++ 0x280 ∷ back) m'
list_insert_ordered_lem_example =
    list_insert_ordered_lem ltb m 0x100 (0x200 ∷ 0x300 ∷ []) 0x280 3 m-IsList (refl, omega arith)
      (omega arith)

addresses-StrictOrder : StrictOrder ltb
addresses-StrictOrder = record {
  irreflexive = λ a. ground arith;
  transitive = λ a b c h k. ground arith;
  connected = λ a b c h k. ground arith;
}
