-- ===== src/Sorting/Sort.antt =====
-- `sort` of lib/stdlib.c: a heap is built, and its root goes behind it until the heap is empty.
use cau_assignments.Base.{
  ℕ, zero, suc, ◌+◌, ◌-◌, ◌/◌, ◌^◌, ◌≤◌, ◌<◌, ◌≡◌, ◌≢◌, ◌⊎◌, inr, refl, arith, true, not, ◌||◌, ltb,
  lt→ltb, subst, ◌==◌,
}
use cau_assignments.Base.Run.{ok}
use cau_assignments.Strings.Ops.{Bytes, null}
use cau_assignments.Sorting.Ops.{Compare, heapify, build_loop, sort_loop, sort}
use cau_assignments.Sorting.Heap.{Heap, Sinking, exchange, Heap-root}
use cau_assignments.Sorting.Rearranged.{
  Rearranged, Comparison, Rearranged-refl, Rearranged-trans, Exchanged, do_swap-Exchanged,
  to-inside, to-positive, view, view-moved,
}
use cau_assignments.Sorting.Heapify.{heapify_lem}

-- The elements behind `i` are in order, and none before them is larger.
abbrev Tail : ℕ → ℕ → (ℕ → ℕ) → Type 0
Tail i n v = (k k' : ℕ) → 1 ≤ k → k < k' → i < k' → k' ≤ n → v k ≤ v k'

Heap-Sinking : (i n : ℕ) (v : ℕ → ℕ) → 1 ≤ i → Heap (suc i) n v → Sinking i n i v
Heap-Sinking i n v pos h = record {
  others = λ k le from ne. h k le (omega (arith, ne));
  below = λ k le under from. omega arith;
}

-- The root and the last element of the heap have changed places.
root_Sinking :
    (i : ℕ) (v v' : ℕ → ℕ)
    → Heap 1 (i + 2) v
    → ((k : ℕ) → 1 ≤ k → v' k ≡ v (exchange 1 (i + 2) k))
    → Sinking 1 (i + 1) 1 v'
root_Sinking i v v' h e = record {
  others =
      λ k le from ne. ground (arith, h k (omega arith) from, e k (omega arith), e (k / 2) from);
  below = λ k le under from. omega arith;
}

module _ {size : ℕ} {compare : Compare} (c : Comparison size compare) (array n : ℕ)
    (small : n < 2 ^ 31) where
  build_loop_lem :
      (fuel i : ℕ) (m : Bytes)
      → i ≤ n
      → n < fuel
      → Heap (i + 1) n (view c array m)
      → (m' : Bytes) × (build_loop compare fuel array i n size m ≡ ok tt m')
        × Rearranged array size n m m'
        × Heap 1 n (view c array m')
  unfolding build_loop
  build_loop_lem fuel zero m le enough h = (m, refl, Rearranged-refl, h)
  build_loop_lem fuel (suc i) m le enough h =
      let sinking =
        Heap-Sinking (suc i) n (view c array m) (omega arith)
          (λ k le' from. h k le' (omega arith)) in
      let (m1, runs, r, heap) =
        heapify_lem c array (suc i) n (omega arith) small fuel (suc i) m (omega arith) le
          (omega arith) sinking in
      let (m2, runs', r', heap') =
        build_loop_lem fuel i m1 (omega arith) enough (λ k le' from. heap k le' (omega arith)) in
      (m2, rw runs runs', Rearranged-trans n (omega arith) r r', heap')

  module _ (i : ℕ) (m m1 : Bytes) (inside : i + 2 ≤ n) (heap : Heap 1 (i + 2) (view c array m))
      (tail : Tail (i + 2) n (view c array m)) (w : Exchanged c array n 1 (i + 2) m m1) where
    Tail-step :
        (m2 : Bytes) → Rearranged array size (i + 1) m1 m2 → Tail (i + 1) n (view c array m2)
    Tail-step m2 r k k' pos lt from le =
        let v = view c array m in
        let x = r.to k in
        let y = exchange 1 (i + 2) x in
        let front = to-inside r k pos in
        let behind : i + 1 < k → x ≡ k = λ far. r.fixes k (inr far) in
        let x_pos = to-positive r k pos in
        let y_pos : 1 ≤ y = ground arith in
        let root = Heap-root (i + 2) v heap y y_pos in
        let last : i + 2 < k' → v y ≤ v k' =
          λ far. tail y k' y_pos (ground (arith, front, behind)) far le in
        ground (
          arith,
          view-moved c array m1 m2 r.to r.elements k pos,
          view-moved c array m1 m2 r.to r.elements k' (omega arith),
          r.fixes k' (inr from),
          w.ranks x x_pos,
          w.ranks k' (omega arith),
          front,
          behind,
          root,
          last,
        )

  abbrev SortedBy : ℕ → ℕ → Bytes → Type 0
  SortedBy fuel i m =
      (m' : Bytes) × (sort_loop compare fuel array i size m ≡ ok tt m')
      × Rearranged array size n m m'
      × Tail 1 n (view c array m')

  module _ (fuel i : ℕ) (m m1 m2 : Bytes) (inside : i + 2 ≤ n)
      (w : Exchanged c array n 1 (i + 2) m m1)
      (heaps : heapify compare fuel array 1 (i + 1) size m1 ≡ ok tt m2)
      (r : Rearranged array size (i + 1) m1 m2) where
    sort_loop-follow : SortedBy fuel i m2 → SortedBy fuel (suc i) m
    unfolding sort_loop
    sort_loop-follow (m3, runs, r', t) = (
      m3,
      rw (w.swaps, heaps) runs,
      Rearranged-trans n (omega arith) (Rearranged-trans (i + 1) (omega arith) w.rearranged r) r',
      t,
    )

  sort_loop_lem :
      (fuel i : ℕ) (m : Bytes)
      → i + 1 ≤ n
      → n < fuel
      → Heap 1 (i + 1) (view c array m)
      → Tail (i + 1) n (view c array m)
      → SortedBy fuel i m
  unfolding sort_loop
  sort_loop_lem fuel zero m le enough h t = (m, refl, Rearranged-refl, t)
  sort_loop_lem fuel (suc i) m le enough h t =
      let (m1, w) =
        do_swap-Exchanged c array n 1 (i + 2) m (omega arith) (omega arith) (omega arith) in
      let h' : Heap 1 (i + 2) (view c array m) = λ k le' from. h k (omega arith) from in
      let sinking = root_Sinking i (view c array m) (view c array m1) h' w.ranks in
      let (m2, heaps, r, heap) =
        heapify_lem c array 1 (i + 1) (omega arith) (omega arith) fuel 1 m1 (omega arith)
          (omega arith) (omega arith) sinking in
      let t' =
        Tail-step i m m1 (omega arith) h' (λ k k' pos lt from. t k k' pos lt (omega arith)) w m2
          r in
      sort_loop-follow fuel i m m1 m2 (omega arith) w heaps r
        (sort_loop_lem fuel i m2 (omega arith) enough heap t')

-- An array that stands in memory: at an address other than `NULL` if it has elements, which have a size.
pub record Array (array cnt size : ℕ) : Type 0 where
  pub usable : (array ≢ 0) ⊎ (cnt ≡ 0)
  pub size_pos : 0 < size
  pub small : cnt < 2 ^ 31

loops-zero :
    (compare : Compare) (fuel array size : ℕ) (m : Bytes)
    → (build_loop compare fuel array (0 / 2) 0 size m ≡ ok tt m)
      × (sort_loop compare fuel array (0 - 1) size m ≡ ok tt m)
unfolding build_loop sort_loop
loops-zero compare fuel array size m = (refl, refl)

sort_runs :
    (compare : Compare) (fuel array cnt size : ℕ) (m m1 m2 : Bytes)
    → Array array cnt size
    → build_loop compare fuel array (cnt / 2) cnt size m ≡ ok tt m1
    → sort_loop compare fuel array (cnt - 1) size m1 ≡ ok tt m2
    → sort compare fuel array cnt size m ≡ ok tt m2
unfolding sort
sort_runs compare fuel array cnt size m m1 m2 a builds sorts =
    let asserts : (not (array == null) || (cnt == 0)) ≡ true = ground (arith, a.usable) in
    let positive : ltb 0 size ≡ true = lt→ltb 0 size a.size_pos in
    rw (asserts, positive, builds) sorts

-- For an array in memory and a comparison that goes by a rank of the bytes of an element, `sort` ends
-- with rounds enough for a heap of all elements: the elements are the same in another order, in which none
-- has a larger rank than one behind it, and the bytes before and behind the array are what they were.
pub sort_lem :
    (size : ℕ) (compare : Compare) (c : Comparison size compare) (fuel array cnt : ℕ) (m : Bytes)
    → Array array cnt size
    → cnt < fuel
    → (m' : Bytes) × (sort compare fuel array cnt size m ≡ ok tt m')
      × Rearranged array size cnt m m'
      × ((k k' : ℕ) → 1 ≤ k → k < k' → k' ≤ cnt → view c array m' k ≤ view c array m' k')
sort_lem size compare c fuel array zero m a enough = (
  m,
  sort_runs compare fuel array 0 size m m m a (loops-zero compare fuel array size m).0
      (loops-zero compare fuel array size m).1,
  Rearranged-refl,
  λ k k' pos lt le. omega arith,
)
sort_lem size compare c fuel array (suc cnt) m a enough =
    let none_yet : Heap (suc cnt / 2 + 1) (suc cnt) (view c array m) = λ k le from. omega arith in
    let (m1, builds, r, heap) =
      build_loop_lem c array (suc cnt) a.small fuel (suc cnt / 2) m (omega arith) enough none_yet in
    let (m2, sorts, r', t) =
      sort_loop_lem c array (suc cnt) a.small fuel cnt m1 (omega arith) enough
        (λ k le from. heap k (omega arith) from) (λ k k' pos lt from le. omega arith) in
    (
      m2,
      sort_runs compare fuel array (suc cnt) size m m1 m2 a builds
          (subst (λ i. sort_loop compare fuel array i size m1 ≡ ok tt m2) (omega arith) sorts),
      Rearranged-trans (suc cnt) (omega arith) r r',
      λ k k' pos lt le. t k k' pos lt (omega arith) le,
    )
