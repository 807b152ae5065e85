-- ===== src/Tests/Sorting.antt =====
-- Tests of the sort and the search, with bytes as elements at the address 100.
use cau_assignments.Base.{ℕ, ◌≤◌, ◌<◌, ◌≡◌, refl, inl, arith, ◌==◌, if◌then◌else◌}
use cau_assignments.Base.Run.{ok}
use cau_assignments.Strings.Ops.{Bytes, sign_of}
use cau_assignments.Sorting.Ops.{Compare, sort, binary_search}
use cau_assignments.Sorting.Rearranged.{Rearranged, Comparison, view}
use cau_assignments.Sorting.Sort.{Array, sort_lem}
use cau_assignments.Sorting.Search.{Answer, binary_search_lem}

abbrev by_byte : Compare
by_byte m a b = sign_of (m a) (m b)

by_byte-Comparison : Comparison 1 by_byte
by_byte-Comparison = record {
  rank = λ m a. m a;
  compares = λ m a b. refl;
  local = λ m m' a a' same. ground (arith, same 0 (omega arith));
}

-- Three bytes that are not in order, and a key behind them.
abbrev unsorted : Bytes
unsorted = λ p. if p == 100 then 9 else (if p == 101 then 4 else (if p == 102 then 7 else 8))

abbrev in_order : Bytes
in_order = λ p. if p == 100 then 4 else (if p == 101 then 7 else 9)

three_bytes : Array 100 3 1
three_bytes = record { usable = inl (omega arith); size_pos = omega arith; small = omega arith }

sort_lem_example :
    (m' : Bytes) × (sort by_byte 4 100 3 1 unsorted ≡ ok tt m')
    × Rearranged 100 1 3 unsorted m'
    × ((k k' : ℕ)
        → 1 ≤ k
        → k < k'
        → k' ≤ 3
        → view by_byte-Comparison 100 m' k ≤ view by_byte-Comparison 100 m' k')
sort_lem_example = sort_lem 1 by_byte by_byte-Comparison 4 100 3 unsorted three_bytes (omega arith)

in_order-sorted :
    (k k' : ℕ)
    → 1 ≤ k
    → k < k'
    → k' ≤ 3
    → view by_byte-Comparison 100 in_order k ≤ view by_byte-Comparison 100 in_order k'
unfolding by_byte-Comparison
in_order-sorted k k' pos lt le = ground arith

-- The key is the byte at the address 102.
binary_search_lem_example :
    (p : ℕ) × (binary_search by_byte 4 102 100 3 1 in_order ≡ ok p in_order)
    × Answer by_byte-Comparison 100 3 102 in_order p
binary_search_lem_example =
    binary_search_lem 1 by_byte by_byte-Comparison 4 100 3 102 in_order three_bytes in_order-sorted
      (omega arith)
