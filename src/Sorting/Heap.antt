-- ===== src/Sorting/Heap.antt =====
-- Heaps of numbers, as `heapify` of lib/stdlib.c builds them: the children of k are 2 k and 2 k + 1.
use cau_assignments.Base.{ℕ, zero, suc, ◌/◌, ◌≤◌, ◌≡◌, ◌≢◌, ◌==◌, if◌then◌else◌, arith, ◌⊎◌}

-- From `lo` on no element is larger than its parent.
abbrev pub Heap : ℕ → ℕ → (ℕ → ℕ) → Type 0
Heap lo n v = (k : ℕ) → k ≤ n → lo ≤ k / 2 → v k ≤ v (k / 2)

-- A heap but for the element `i`, which may be smaller than its children.
pub record Sinking (lo n i : ℕ) (v : ℕ → ℕ) : Type 0 where
  pub others : (k : ℕ) → k ≤ n → lo ≤ k / 2 → k / 2 ≢ i → v k ≤ v (k / 2)
  pub below : (k : ℕ) → k ≤ n → k / 2 ≡ i → lo ≤ i / 2 → v k ≤ v (i / 2)

abbrev pub exchange : ℕ → ℕ → ℕ → ℕ
exchange a b k = if k == a then b else (if k == b then a else k)

-- What `largest` finds: `i` or a child of it, and no smaller than these.
pub record Top (n i c : ℕ) (v : ℕ → ℕ) : Type 0 where
  pub one_of : (c ≡ i) ⊎ ((c / 2 ≡ i) × (c ≤ n))
  pub most : (k : ℕ) → k ≤ n → k / 2 ≡ i → v k ≤ v c
  pub most_self : v i ≤ v c

module _ {lo n i : ℕ} {v : ℕ → ℕ} where
  pub Sinking-Heap : Sinking lo n i v → Top n i i v → Heap lo n v
  Sinking-Heap s t k le from = ground (arith, s.others k le from, t.most k le)

  pub Sinking-exchange :
      (c : ℕ) (v' : ℕ → ℕ)
      → 1 ≤ lo
      → lo ≤ i
      → Sinking lo n i v
      → Top n i c v
      → c ≢ i
      → ((k : ℕ) → 1 ≤ k → v' k ≡ v (exchange i c k))
      → Sinking lo n c v'
  Sinking-exchange c v' pos from s t moved e = record {
    others = λ k le above apart.
        ground (
          arith,
          s.others k le above,
          s.below c,
          t.most k le,
          t.most_self,
          t.one_of,
          e k,
          e (k / 2),
        );
    below = λ k le under above. ground (arith, s.others k le, t.one_of, e k, e i);
  }

module _ (n : ℕ) (v : ℕ → ℕ) (h : Heap 1 n v) where
  Heap-root_below : (b k : ℕ) → k ≤ b → 1 ≤ k → k ≤ n → v k ≤ v 1
  Heap-root_below zero k small pos le = ground arith
  Heap-root_below (suc b) k small pos le =
      let up : 2 ≤ k → v k ≤ v 1 = λ two.
        let parent = Heap-root_below b (k / 2) (omega arith) (omega arith) (omega arith) in
        ground (arith, h k le (omega arith), parent) in
      ground (arith, up)

  -- The root of a heap is its largest element.
  pub Heap-root : (k : ℕ) → 1 ≤ k → k ≤ n → v k ≤ v 1
  Heap-root k pos le = Heap-root_below k k (omega arith) pos le
