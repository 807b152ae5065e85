-- ===== src/Sorting/Rearranged.antt =====
-- What the sorting functions of lib/stdlib.c keep: every element, byte by byte.
use cau_assignments.Base.{ℕ, ◌+◌, ◌≤◌, ◌<◌, ◌≡◌, ◌⊎◌, refl, sym, ap, ◌∙◌, arith, ltb}
use cau_assignments.Base.Run.{ok}
use cau_assignments.Strings.Ops.{Bytes, sign_of}
use cau_assignments.Sorting.Ops.{Compare, place, positive, do_swap, do_compare}
use cau_assignments.Sorting.Swap.{do_swap_lem}
use cau_assignments.Sorting.Heap.{exchange}

-- The elements 1 to `n` of an array stand in another order, and all else stays. Elements behind `n` are
-- the bytes behind them too.
pub record Rearranged (array size n : ℕ) (m m' : Bytes) : Type 0 where
  pub to : ℕ → ℕ
  pub back : ℕ → ℕ
  pub to_back : (k : ℕ) → to (back k) ≡ k
  pub back_to : (k : ℕ) → back (to k) ≡ k
  pub fixes : (k : ℕ) → (k < 1) ⊎ (n < k) → to k ≡ k
  pub elements :
      (k j : ℕ) → 1 ≤ k → j < size → m' (place array size k + j) ≡ m (place array size (to k) + j)
  pub before : (p : ℕ) → p < array → m' p ≡ m p

-- A comparison of `size` bytes by their rank, with a result as `strcmp` has it.
pub record Comparison (size : ℕ) (compare : Compare) : Type 0 where
  pub rank : Bytes → ℕ → ℕ
  pub compares : (m : Bytes) (a b : ℕ) → compare m a b ≡ sign_of (rank m a) (rank m b)
  pub local :
      (m m' : Bytes) (a a' : ℕ)
      → ((j : ℕ) → j < size → m (a + j) ≡ m' (a' + j))
      → rank m a ≡ rank m' a'

module _ {array size n : ℕ} {m m' : Bytes} (r : Rearranged array size n m m') where
  stays : (k : ℕ) → (r.to k < 1) ⊎ (n < r.to k) → r.to k ≡ k
  stays k out = sym (r.back_to (r.to k)) ∙ ap r.back (r.fixes (r.to k) out) ∙ r.back_to k

  pub to-positive : (k : ℕ) → 1 ≤ k → 1 ≤ r.to k
  to-positive k pos = let same = stays k in ground (arith, same)

  pub to-inside : (k : ℕ) → 1 ≤ k → k ≤ n → (1 ≤ r.to k) × (r.to k ≤ n)
  to-inside k pos le = let same = stays k in (ground (arith, same), ground (arith, same))

pub Rearranged-refl : {array size n : ℕ} {m : Bytes} → Rearranged array size n m m
Rearranged-refl = record {
  to = λ k. k;
  back = λ k. k;
  to_back = λ k. refl;
  back_to = λ k. refl;
  fixes = λ k out. refl;
  elements = λ k j pos lt. refl;
  before = λ p lt. refl;
}

-- The second range may be shorter.
pub Rearranged-trans :
    {array size n : ℕ} {m m' m'' : Bytes}
    → (n' : ℕ) → n' ≤ n
    → Rearranged array size n m m'
    → Rearranged array size n' m' m''
    → Rearranged array size n m m''
Rearranged-trans n' le r r' = record {
  to = λ k. r.to (r'.to k);
  back = λ k. r'.back (r.back k);
  to_back = λ k. ap r.to (r'.to_back (r.back k)) ∙ r.to_back k;
  back_to = λ k. ap r'.back (r.back_to (r'.to k)) ∙ r'.back_to k;
  fixes = λ k out. ap r.to (r'.fixes k (ground arith)) ∙ r.fixes k out;
  elements =
      λ k j pos lt. r'.elements k j pos lt ∙ r.elements (r'.to k) j (to-positive r' k pos) lt;
  before = λ p lt. r'.before p lt ∙ r.before p lt;
}

pub Rearranged-exchange :
    {array size n : ℕ} {m m' : Bytes}
    → (a b : ℕ) → 1 ≤ a
    → a < b
    → b ≤ n
    → ((k j : ℕ)
        → 1 ≤ k
        → j < size
        → m' (place array size k + j) ≡ m (place array size (exchange a b k) + j))
    → ((p : ℕ) → p < array → m' p ≡ m p)
    → Rearranged array size n m m'
Rearranged-exchange a b pos lt le elements before = record {
  to = exchange a b;
  back = exchange a b;
  to_back = λ k. ground arith;
  back_to = λ k. ground arith;
  fixes = λ k out. ground arith;
  elements = elements;
  before = before;
}

module _ {size : ℕ} {compare : Compare} (c : Comparison size compare) (array : ℕ) where
  -- The ranks of the elements.
  abbrev pub view : Bytes → ℕ → ℕ
  view m k = c.rank m (place array size k)

  pub view-moved :
      (m m' : Bytes) (to : ℕ → ℕ)
      → ((k j : ℕ)
          → 1 ≤ k
          → j < size
          → m' (place array size k + j) ≡ m (place array size (to k) + j))
      → (k : ℕ) → 1 ≤ k
      → view m' k ≡ view m (to k)
  view-moved m m' to elements k pos =
      c.local m' m (place array size k) (place array size (to k)) (λ j lt. elements k j pos lt)

  pub compare_lem :
      (m : Bytes) (a b : ℕ)
      → positive (do_compare compare array a b size m) ≡ ltb (view m b) (view m a)
  compare_lem m a b = ground (arith, c.compares m (place array size a) (place array size b))

  -- Two elements have changed places.
  pub record Exchanged (n a b : ℕ) (m m' : Bytes) : Type 0 where
    pub swaps : do_swap array a b size m ≡ ok tt m'
    pub rearranged : Rearranged array size n m m'
    pub ranks : (k : ℕ) → 1 ≤ k → view m' k ≡ view m (exchange a b k)

  pub do_swap-Exchanged :
      (n a b : ℕ) (m : Bytes) → 1 ≤ a → a < b → b ≤ n → (m' : Bytes) × Exchanged n a b m m'
  do_swap-Exchanged n a b m pos lt le =
      let (m', swaps, elements, before) = do_swap_lem array size a b m pos lt in
      (
        m',
        record {
          swaps = swaps;
          rearranged = Rearranged-exchange a b pos lt le elements before;
          ranks = view-moved m m' (exchange a b) elements;
        },
      )
