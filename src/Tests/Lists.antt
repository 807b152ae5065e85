-- ===== src/Tests/Lists.antt =====
-- Tests of the linked lists.
use cau_assignments.Base.{◌≡◌, refl, [], ◌∷◌, arith}
use cau_assignments.Base.Run.{ok}
use cau_assignments.KernelList.Memory.{Mem}
use cau_assignments.KernelList.Ops.{list_insert, list_remove}
use cau_assignments.KernelList.Lists.{IsList}
use cau_assignments.KernelList.Insert.{Inserts, list_insert_lem}
use cau_assignments.KernelList.Remove.{Removes, list_remove_lem}
use cau_assignments.Tests.Sample.{memory}

abbrev m : Mem
m = memory ((0x100, 0x200 ∷ 0x300 ∷ []) ∷ [])

m-IsList : IsList m 0x100 (0x200 ∷ 0x300 ∷ [])
m-IsList = record {
  linked = ground arith;
  start = refl;
  stop = refl;
  distinct = ground arith;
  real = refl;
}

list_insert_lem_example :
    (m' : Mem) × (list_insert 0x300 0x400 m ≡ ok tt m')
    × Inserts m 0x100 0x400 (0x200 ∷ 0x300 ∷ []) (0x200 ∷ 0x400 ∷ 0x300 ∷ []) m'
list_insert_lem_example =
    list_insert_lem m 0x100 (0x200 ∷ []) (0x300 ∷ []) 0x400 m-IsList (refl, omega arith)

list_remove_lem_example :
    (m' : Mem) × (list_remove 0x200 m ≡ ok 0x300 m') × Removes m 0x100 0x200 (0x300 ∷ []) m'
list_remove_lem_example = list_remove_lem m 0x100 [] 0x200 (0x300 ∷ []) m-IsList
