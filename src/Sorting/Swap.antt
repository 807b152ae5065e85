-- ===== src/Sorting/Swap.antt =====
-- `do_swap` of lib/stdlib.c exchanges two elements, byte by byte.
use native.Mathlib.Nat.{add-mul, mul-le-mul_right}
use cau_assignments.Base.{
  ℕ, zero, suc, ◌+◌, ◌-◌, ◌≤◌, ◌<◌, ◌≡◌, ◌≢◌, refl, ◌∙◌, ◌&&◌, ◌⊎◌, inl, inr, leb, ltb,
  if◌then◌else◌, arith, Bool-cases, ◌==◌,
}
use cau_assignments.Base.Run.{ok}
use cau_assignments.Strings.Ops.{Bytes, store}
use cau_assignments.Sorting.Ops.{place, swap_loop, do_swap}
use cau_assignments.Sorting.Heap.{exchange}

-- The bytes after an exchange of the blocks of `n` bytes at `a` and at `b`.
abbrev swapped : ℕ → ℕ → ℕ → Bytes → Bytes
swapped n a b m = λ p.
    if leb a p && ltb p (a + n)
    then m (b + (p - a))
    else (if leb b p && ltb p (b + n) then m (a + (p - b)) else m p)

module _ (n a b : ℕ) (m : Bytes) (apart : a + n ≤ b) where
  swapped-left : (j : ℕ) → j < n → swapped n a b m (a + j) ≡ m (b + j)
  swapped-left j lt = ground arith

  swapped-right : (j : ℕ) → j < n → swapped n a b m (b + j) ≡ m (a + j)
  swapped-right j lt = ground arith

  swapped-elsewhere :
      (p j : ℕ)
      → j < n
      → (p + n ≤ a) ⊎ (a + n ≤ p)
      → (p + n ≤ b) ⊎ (b + n ≤ p)
      → swapped n a b m (p + j) ≡ m (p + j)
  swapped-elsewhere p j lt off_a off_b = ground arith

swap_loop_lem :
    (n a b : ℕ) (m : Bytes)
    → (a + n ≤ b) ⊎ (b + n ≤ a)
    → (m' : Bytes) × (swap_loop n a b m ≡ ok tt m') × ((p : ℕ) → m' p ≡ swapped n a b m p)
unfolding swap_loop
swap_loop_lem zero a b m apart = (m, refl, λ p. ground arith)
swap_loop_lem (suc n) a b m apart =
    let m1 = store b (m a) (store a (m b) m) in
    let (m', runs, bytes) = swap_loop_lem n (a + 1) (b + 1) m1 (ground arith) in
    (m', runs, λ p. ground (arith, bytes p))

lt-or-gt : (k c : ℕ) → k ≢ c → (k < c) ⊎ (c < k)
lt-or-gt k c ne = ground arith

module _ (array size : ℕ) where
  -- Elements do not overlap.
  pub place-apart : (k k' : ℕ) → 1 ≤ k → k < k' → place array size k + size ≤ place array size k'
  place-apart k k' pos lt =
      let le : k - 1 + 1 ≤ k' - 1 = omega arith in
      omega (arith, add-mul (k - 1) 1 size, mul-le-mul_right size le)

  module _ (a b : ℕ) (m m' : Bytes) (pos : 1 ≤ a) (lt : a < b)
      (e : (p : ℕ) → m' p ≡ swapped size (place array size a) (place array size b) m p) where
    moved :
        (k k' j : ℕ)
        → exchange a b k ≡ k'
        → m' (place array size k + j) ≡ m (place array size k' + j)
        → m' (place array size k + j) ≡ m (place array size (exchange a b k) + j)
    moved k k' j ex eq = rw ex eq

    off :
        (k c : ℕ)
        → 1 ≤ k
        → 1 ≤ c
        → k ≢ c
        → (place array size k + size ≤ place array size c)
          ⊎ (place array size c + size ≤ place array size k)
    off k c pos' pos'' ne = elim (lt-or-gt k c ne) [
      | inl lt' ↦ inl (place-apart k c pos' lt')
      | inr gt' ↦ inr (place-apart c k pos'' gt')
    ]

    byte_at :
        (k j : ℕ)
        → 1 ≤ k
        → j < size
        → m' (place array size k + j) ≡ m (place array size (exchange a b k) + j)
    byte_at k j pos' small =
        let apart = place-apart a b pos lt in
        elim (Bool-cases (k == a)) [
          | inl at_a ↦
              let ka : k ≡ a = ground arith in
              rw ka (
                moved a b j (ground arith) (
                  e (place array size a + j)
                  ∙ swapped-left size (place array size a) (place array size b) m apart j small))
          | inr not_a ↦ elim (Bool-cases (k == b)) [
            | inl at_b ↦
                let kb : k ≡ b = ground arith in
                rw kb (
                  moved b a j (ground arith) (
                    e (place array size b + j)
                    ∙ swapped-right size (place array size a) (place array size b) m apart j small))
            | inr not_b ↦ moved k k j (ground arith) (
                e (place array size k + j)
                ∙ swapped-elsewhere size (place array size a) (place array size b) m apart
                    (place array size k) j small (off k a pos' pos (ground arith))
                    (off k b pos' (omega arith) (ground arith)))
          ]
        ]

  -- The elements `a` and `b` have changed places, and no byte before the array has changed.
  pub do_swap_lem :
      (a b : ℕ) (m : Bytes)
      → 1 ≤ a
      → a < b
      → (m' : Bytes) × (do_swap array a b size m ≡ ok tt m')
        × ((k j : ℕ)
            → 1 ≤ k
            → j < size
            → m' (place array size k + j) ≡ m (place array size (exchange a b k) + j))
        × ((p : ℕ) → p < array → m' p ≡ m p)
  unfolding do_swap
  do_swap_lem a b m pos lt =
      let (m', runs, e) =
        swap_loop_lem size (place array size a) (place array size b) m
          (inl (place-apart a b pos lt)) in
      (m', runs, byte_at a b m m' pos lt e, λ p before. ground (arith, e p))
