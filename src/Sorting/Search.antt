-- ===== src/Sorting/Search.antt =====
-- `binary_search` of lib/stdlib.c halves the part of the array that can hold the key.
use native.Mathlib.Nat.{add-mul, mul_comm}
use cau_assignments.Base.{
  ℕ, zero, suc, ◌+◌, ◌-◌, ◌*◌, ◌/◌, ◌≤◌, ◌<◌, ◌≡◌, ◌≢◌, ◌⊎◌, inl, inr, refl, ap, ap₂, subst, ◌∙◌,
  arith,
}
use cau_assignments.Base.Run.{ok}
use cau_assignments.Strings.Ops.{Bytes, Sign, null, minus, zero_sign, plus, sign_of}
use cau_assignments.Sorting.Ops.{Compare, place, search_loop, binary_search}
use cau_assignments.Sorting.Rearranged.{Comparison, view}
use cau_assignments.Sorting.Sort.{Array}
use cau_assignments.Sorting.Halves.{
  search_loop-empty, next, search_loop-next, behind, goes_on, halved,
}

three_ways : (a b : ℕ) → (a < b) ⊎ ((b < a) ⊎ (a ≡ b))
three_ways a b = ground arith

module _ {size : ℕ} {compare : Compare} (c : Comparison size compare) (array cnt key : ℕ)
    (m : Bytes) where
  -- An element that compares equal to the key has been found, or there is none.
  abbrev pub Answer : ℕ → Type 0
  Answer p =
      ((k : ℕ) × (1 ≤ k) × (k ≤ cnt) × (p ≡ place array size k) × (compare m key p ≡ zero_sign))
      ⊎ ((p ≡ null) × ((k : ℕ) → 1 ≤ k → k ≤ cnt → compare m key (place array size k) ≢ zero_sign))

  -- No element of the array is larger than one behind it.
  abbrev pub Sorted : Type 0
  Sorted = (k k' : ℕ) → 1 ≤ k → k < k' → k' ≤ cnt → view c array m k ≤ view c array m k'

  -- The elements that are left are those behind `lo`, `d` of them.
  record Left (lo d : ℕ) : Type 0 where
    inside : lo + d ≤ cnt
    below : (k : ℕ) → 1 ≤ k → k ≤ lo → view c array m k < c.rank m key
    above : (k : ℕ) → lo + d < k → k ≤ cnt → c.rank m key < view c array m k

  Left-middle :
      (lo d k : ℕ)
      → Sorted
      → Left lo (suc d)
      → k ≡ lo + suc d / 2 + 1
      → c.rank m key < view c array m k
      → Left lo (suc d / 2)
  Left-middle lo d k sorted l e lt = record {
    inside = let i = l.inside in omega arith;
    below = l.below;
    above = λ k' far le. ground (arith, sorted k k' (omega arith));
  }

  Left-right :
      (lo d k : ℕ)
      → Sorted
      → Left lo (suc d)
      → k ≡ lo + suc d / 2 + 1
      → view c array m k < c.rank m key
      → Left k (d - suc d / 2)
  Left-right lo d k sorted l e lt = record {
    inside = let i = l.inside in omega arith;
    below = λ k' pos le. let i = l.inside in ground (arith, sorted k' k pos);
    above = λ k' far le. l.above k' (omega arith) le;
  }

  module _ (sorted : Sorted) (a : Array array cnt size) where
    abbrev at_end : ℕ → ℕ
    at_end = behind array size a.size_pos

    -- The comparison of the key with the middle element.
    compares :
        (mid k : ℕ)
        → k ≡ mid + 1
        → compare m key (at_end mid) ≡ sign_of (c.rank m key) (view c array m k)
    compares mid k e =
        let here : at_end mid ≡ place array size k = ap (λ x. array + x * size) (omega arith) in
        ap (compare m key) here ∙ c.compares m key (place array size k)

    missing :
        (lo : ℕ)
        → Left lo 0
        → (k : ℕ) → 1 ≤ k
        → k ≤ cnt
        → compare m key (place array size k) ≢ zero_sign
    missing lo l k pos le =
        let above : lo + 0 < k → c.rank m key < view c array m k = λ lt. l.above k lt le in
        ground (arith, c.compares m key (place array size k), l.below k pos, above)

    round :
        (fuel lo d : ℕ) (x : Sign)
        → compare m key (at_end (lo + suc d / 2)) ≡ x
        → search_loop compare (suc fuel) key (at_end lo) (at_end (lo + suc d)) size m
          ≡ next compare m key fuel
              (at_end lo)
              (at_end (lo + suc d))
              size
              (at_end (lo + suc d / 2))
              x
    round fuel lo d x e =
        search_loop-next compare m key fuel (at_end lo) (at_end (lo + suc d)) size
          (goes_on array size a.size_pos lo d) (at_end (lo + suc d / 2)) x
          (halved array size a.size_pos lo d) e

    moves :
        (fuel lo d : ℕ)
        → search_loop compare fuel key (at_end (lo + suc d / 2) + size) (at_end (lo + suc d)) size m
          ≡ search_loop compare fuel key
              (at_end (lo + suc d / 2 + 1))
              (at_end (lo + suc d / 2 + 1 + (d - suc d / 2)))
              size
              m
    moves fuel lo d =
        ap₂ (λ x y. search_loop compare fuel key x y size m)
          (omega (arith, add-mul (lo + suc d / 2) 1 size)) (ap at_end (omega arith))

    search_loop_lem :
        (fuel lo d : ℕ)
        → d < fuel
        → Left lo d
        → (p : ℕ) × (search_loop compare fuel key (at_end lo) (at_end (lo + d)) size m ≡ ok p m)
          × Answer p
    search_loop_lem zero lo d enough l = ground arith
    search_loop_lem (suc fuel) lo zero enough l = (
      null,
      subst (λ x. search_loop compare (suc fuel) key (at_end lo) (at_end x) size m ≡ ok null m)
          (omega arith) (search_loop-empty compare m key fuel (at_end lo) size),
      inr (refl, missing lo l),
    )
    search_loop_lem (suc fuel) lo (suc d) enough l =
        let mid = lo + suc d / 2 in
        let k = mid + 1 in
        let e = compares mid k refl in
        elim (three_ways (c.rank m key) (view c array m k)) [
          | inl less ↦
              let (p, runs, answer) =
                search_loop_lem fuel lo (suc d / 2) (omega arith)
                  (Left-middle lo d k sorted l refl less) in
              (p, round fuel lo d minus (ground (arith, e)) ∙ runs, answer)
          | inr (inl more) ↦
              let (p, runs, answer) =
                search_loop_lem fuel k (d - suc d / 2) (omega arith)
                  (Left-right lo d k sorted l refl more) in
              (p, round fuel lo d plus (ground (arith, e)) ∙ moves fuel lo d ∙ runs, answer)
          | inr (inr same) ↦ (
            at_end mid,
            round fuel lo d zero_sign (ground (arith, e)),
            inl (
              k,
              omega arith,
              (let i = l.inside in omega arith),
              ap (λ x. array + x * size) (omega arith),
              ground (arith, e),
            ),
          )
        ]

-- In an array in memory that is sorted by a comparison that goes by a rank of the bytes of an element,
-- `binary_search` with more rounds than elements ends: with the address of an element that compares equal
-- to the key, or with `NULL`, and then no element compares equal to it.
pub binary_search_lem :
    (size : ℕ) (compare : Compare) (c : Comparison size compare) (fuel array cnt key : ℕ)
    (m : Bytes)
    → Array array cnt size
    → Sorted c array cnt key m
    → cnt < fuel
    → (p : ℕ) × (binary_search compare fuel key array cnt size m ≡ ok p m)
      × Answer c array cnt key m p
unfolding binary_search
binary_search_lem size compare c fuel array cnt key m a sorted enough =
    let l : Left c array cnt key m 0 cnt = record {
      inside = omega arith;
      below = λ k pos le. omega arith;
      above = λ k far le. omega arith;
    } in
    let (p, runs, answer) = search_loop_lem c array cnt key m sorted a fuel 0 cnt enough l in
    (
      p,
      ap₂ (λ x y. search_loop compare fuel key x y size m) (omega arith)
            (omega (arith, mul_comm size cnt))
          ∙ runs,
      answer,
    )
