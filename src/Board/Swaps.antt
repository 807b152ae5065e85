-- ===== src/Board/Swaps.antt =====
-- Swaps of neighbours in a list: they keep the members, and each turns the parity of the inversions.
use cau_assignments.Base.{
  ℕ, zero, suc, ◌+◌, ◌<◌, ◌≡◌, refl, Bool, true, false, not, ◌&&◌, List, [], ◌∷◌, arith, has, ltb,
  length, ◌∙◌, ap,
}

abbrev pub xor : Bool → Bool → Bool
xor true b = not b
xor false b = b

-- Is the number of smaller elements odd?
abbrev pub odd_below : ℕ → List ℕ → Bool
odd_below x [] = false
odd_below x (y ∷ ys) = xor (ltb y x) (odd_below x ys)

-- Is the number of inversions odd?
abbrev pub parity : List ℕ → Bool
parity [] = false
parity (x ∷ xs) = xor (odd_below x xs) (parity xs)

abbrev pub all_distinct : List ℕ → Bool
all_distinct [] = true
all_distinct (x ∷ xs) = not (has x xs) && all_distinct xs

-- `ys` has the members of `xs`, without repetition if `xs` is, and the parity differs as `odd` says.
pub record Swapped (odd : Bool) (xs ys : List ℕ) : Type 0 where
  pub distinct : all_distinct ys ≡ true
  pub turned : parity ys ≡ xor odd (parity xs)
  pub members : (k : ℕ) → has k ys ≡ has k xs

unfoldable pub swap_next : ℕ → List ℕ → List ℕ
swap_next n [] = []
swap_next n (x ∷ []) = x ∷ []
swap_next zero (x ∷ y ∷ zs) = y ∷ x ∷ zs
swap_next (suc n) (x ∷ y ∷ zs) = x ∷ swap_next n (y ∷ zs)

odd_below-swap_next : (x n : ℕ) (ys : List ℕ) → odd_below x (swap_next n ys) ≡ odd_below x ys
unfolding swap_next
odd_below-swap_next x n [] = refl
odd_below-swap_next x n (y ∷ []) = refl
odd_below-swap_next x zero (y ∷ z ∷ zs) = ground arith
odd_below-swap_next x (suc n) (y ∷ z ∷ zs) = ground (arith, odd_below-swap_next x n (z ∷ zs))

has-swap_next : (x n : ℕ) (ys : List ℕ) → has x (swap_next n ys) ≡ has x ys
unfolding swap_next
has-swap_next x n [] = refl
has-swap_next x n (y ∷ []) = refl
has-swap_next x zero (y ∷ z ∷ zs) = ground arith
has-swap_next x (suc n) (y ∷ z ∷ zs) = ground (arith, has-swap_next x n (z ∷ zs))

pub swap_next-Swapped :
    (n : ℕ) (xs : List ℕ)
    → n + 1 < length xs
    → all_distinct xs ≡ true
    → Swapped true xs (swap_next n xs)
unfolding swap_next
swap_next-Swapped n [] lt d = absurd (omega arith)
swap_next-Swapped n (x ∷ []) lt d = absurd (omega arith)
swap_next-Swapped zero (x ∷ y ∷ zs) lt d = record {
  distinct = ground arith;
  turned = ground arith;
  members = λ k. ground arith;
}
swap_next-Swapped (suc n) (x ∷ y ∷ zs) lt d =
    let ih = swap_next-Swapped n (y ∷ zs) (omega arith) (ground arith) in
    let di = ih.distinct in
    let tu = ih.turned in
    record {
      distinct = ground (arith, has-swap_next x n (y ∷ zs));
      turned = ground (arith, odd_below-swap_next x n (y ∷ zs));
      members = λ k. ground (arith, has-swap_next k n (y ∷ zs));
    }

length-swap_next : (n : ℕ) (xs : List ℕ) → length (swap_next n xs) ≡ length xs
unfolding swap_next
length-swap_next n [] = refl
length-swap_next n (x ∷ []) = refl
length-swap_next zero (x ∷ y ∷ zs) = refl
length-swap_next (suc n) (x ∷ y ∷ zs) = ap suc (length-swap_next n (y ∷ zs))

abbrev pub swap_all : List ℕ → List ℕ → List ℕ
swap_all [] xs = xs
swap_all (n ∷ ns) xs = swap_all ns (swap_next n xs)

abbrev pub all_below : ℕ → List ℕ → Bool
all_below k [] = true
all_below k (n ∷ ns) = ltb (n + 1) k && all_below k ns

abbrev pub odd_length : List ℕ → Bool
odd_length [] = false
odd_length (n ∷ ns) = not (odd_length ns)

-- A sequence of swaps turns the parity as often as it is long.
pub swap_all-Swapped :
    (ns xs : List ℕ)
    → all_below (length xs) ns ≡ true
    → all_distinct xs ≡ true
    → Swapped (odd_length ns) xs (swap_all ns xs)
swap_all-Swapped [] xs lt d = record { distinct = d; turned = refl; members = λ k. refl }
swap_all-Swapped (n ∷ ns) xs lt d =
    let one = swap_next-Swapped n xs (ground arith) d in
    let rest =
      swap_all-Swapped ns (swap_next n xs) (ground (arith, length-swap_next n xs)) one.distinct in
    let t = one.turned in
    let t' = rest.turned in
    record {
      distinct = rest.distinct;
      turned = ground arith;
      members = λ k. rest.members k ∙ one.members k;
    }
