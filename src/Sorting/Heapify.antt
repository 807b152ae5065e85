-- ===== src/Sorting/Heapify.antt =====
-- `heapify` of lib/stdlib.c lets an element sink to its place in a heap.
use cau_assignments.Base.{
  ℕ, zero, suc, ◌+◌, ◌*◌, ◌%◌, ◌^◌, ◌≤◌, ◌<◌, ◌≡◌, ◌≢◌, ◌⊎◌, inl, inr, refl, ◌∙◌, subst, arith,
  ◌&&◌, ◌==◌, ltb, leb, if◌then◌else◌, Bool-cases,
}
use cau_assignments.Base.Run.{ok}
use cau_assignments.Strings.Ops.{Bytes}
use cau_assignments.Sorting.Ops.{Compare, do_swap, largest, heapify}
use cau_assignments.Sorting.Heap.{Heap, Sinking, Top, Sinking-Heap, Sinking-exchange}
use cau_assignments.Sorting.Rearranged.{
  Rearranged, Comparison, Rearranged-refl, Rearranged-trans, view, compare_lem, Exchanged,
  do_swap-Exchanged,
}

-- The largest of `i` and its children, by their ranks.
abbrev picked : (ℕ → ℕ) → ℕ → ℕ → ℕ
picked v i n =
    let upper = (if leb (2 * i) n && ltb (v i) (v (2 * i)) then 2 * i else i) in
    if leb (2 * i + 1) n && ltb (v upper) (v (2 * i + 1)) then 2 * i + 1 else upper

picked-Top : (v : ℕ → ℕ) (i n : ℕ) → 1 ≤ i → Top n i (picked v i n) v
picked-Top v i n pos = record {
  one_of = ground arith;
  most = λ k le under.
      let child : (k ≡ 2 * i) ⊎ (k ≡ 2 * i + 1) = ground arith in ground (arith, child);
  most_self = ground arith;
}

module _ {size : ℕ} {compare : Compare} (c : Comparison size compare) (array : ℕ) where
  largest_lem :
      (i n : ℕ) (m : Bytes)
      → i ≤ n
      → n < 2 ^ 31
      → largest compare array i n size m ≡ picked (view c array m) i n
  unfolding largest
  largest_lem i n m le small =
      let left : 2 * i % 2 ^ 32 ≡ 2 * i = omega arith in
      let right : (2 * i + 1) % 2 ^ 32 ≡ 2 * i + 1 = omega arith in
      let v = view c array m in
      let upper = (if leb (2 * i) n && ltb (v i) (v (2 * i)) then 2 * i else i) in
      rw (left, right, compare_lem c array m (2 * i) i, compare_lem c array m (2 * i + 1) upper)
        refl

  heapify-stop :
      (fuel i n : ℕ) (m : Bytes)
      → largest compare array i n size m ≡ i
      → heapify compare (suc fuel) array i n size m ≡ ok tt m
  unfolding heapify
  heapify-stop fuel i n m e = ground (arith, e)

  heapify-step :
      (fuel i n x : ℕ) (m m' : Bytes)
      → largest compare array i n size m ≡ x
      → x ≢ i
      → do_swap array i x size m ≡ ok tt m'
      → heapify compare (suc fuel) array i n size m ≡ heapify compare fuel array x n size m'
  unfolding heapify
  heapify-step fuel i n x m m' e ne swaps = ground (arith, e, swaps)

  module _ (lo n : ℕ) (pos : 1 ≤ lo) (small : n < 2 ^ 31) where
    -- The element `i` has sunk to its place.
    abbrev Sunk : ℕ → ℕ → Bytes → Type 0
    Sunk fuel i m =
        (m' : Bytes) × (heapify compare fuel array i n size m ≡ ok tt m')
        × Rearranged array size n m m'
        × Heap lo n (view c array m')

    -- What is shown of the rounds that are left.
    abbrev Rest : ℕ → Type 0
    Rest fuel =
        (i : ℕ) (m : Bytes)
        → lo ≤ i
        → i ≤ n
        → n < fuel + i
        → Sinking lo n i (view c array m)
        → Sunk fuel i m

    module _ (fuel i x : ℕ) (m : Bytes) (l : largest compare array i n size m ≡ x) where
      ends :
          Sinking lo n i (view c array m) → Top n i x (view c array m) → x ≡ i → Sunk (suc fuel) i m
      ends s t e = (
        m,
        heapify-stop fuel i n m (l ∙ e),
        Rearranged-refl,
        Sinking-Heap s (subst (λ y. Top n i y (view c array m)) e t),
      )

      module _ (ne : x ≢ i) (m1 : Bytes) (w : Exchanged c array n i x m m1) where
        follow : Sunk fuel x m1 → Sunk (suc fuel) i m
        follow (m2, runs, r, heap) = (
          m2,
          heapify-step fuel i n x m m1 l ne w.swaps ∙ runs,
          Rearranged-trans n (omega arith) w.rearranged r,
          heap,
        )

      descends :
          Rest fuel
          → lo ≤ i
          → n < suc fuel + i
          → Sinking lo n i (view c array m)
          → Top n i x (view c array m)
          → x ≢ i
          → i < x
          → x ≤ n
          → Sunk (suc fuel) i m
      descends rest from enough s t ne lt le =
          let (m1, w) = do_swap-Exchanged c array n i x m (omega arith) lt le in
          follow ne m1 w (
            rest x m1 (omega arith) le (omega arith)
              (Sinking-exchange x (view c array m1) pos from s t ne w.ranks))

      sinks :
          Rest fuel
          → lo ≤ i
          → n < suc fuel + i
          → Sinking lo n i (view c array m)
          → Top n i x (view c array m)
          → Sunk (suc fuel) i m
      sinks rest from enough s t = elim (Bool-cases (x == i)) [
        | inl same ↦ ends s t (ground arith)
        | inr other ↦
            descends rest from enough s t (ground arith) (ground (arith, t.one_of))
              (ground (arith, t.one_of))
      ]

    -- With enough rounds the element `i` sinks to its place: the elements from `lo` to `n` are a heap, and
    -- the elements 1 to `n` are what they were, in another order.
    pub heapify_lem :
        (fuel i : ℕ) (m : Bytes)
        → lo ≤ i
        → i ≤ n
        → n < fuel + i
        → Sinking lo n i (view c array m)
        → (m' : Bytes) × (heapify compare fuel array i n size m ≡ ok tt m')
          × Rearranged array size n m m'
          × Heap lo n (view c array m')
    heapify_lem zero i m from le enough s = ground arith
    heapify_lem (suc fuel) i m from le enough s =
        sinks fuel i (picked (view c array m) i n) m (largest_lem i n m le small) (heapify_lem fuel)
          from enough s (picked-Top (view c array m) i n (omega arith))
