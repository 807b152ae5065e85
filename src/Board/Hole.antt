-- ===== src/Board/Hole.antt =====
-- A board with one hole, and that the search of `findEmptyRow` and `findEmptyCol` finds it.
use cau_assignments.Base.{
  ℕ, ◌≡◌, refl, true, false, ◌&&◌, none, some, List, [], ◌∷◌, ◌==◌, arith, has, inl, inr,
  Bool-cases,
}
use cau_assignments.Board.Ops.{Cells, evens, exchange, find_in_row, find_empty_row, find_empty_col}

-- The only zero among the squares for tiles is at `r`, `c`.
pub record IsHole (b : Cells) (r c : ℕ) : Type 0 where
  pub row_even : has r evens ≡ true
  pub col_even : has c evens ≡ true
  pub empty : b r c ≡ 0
  pub full :
      (i j : ℕ)
      → has i evens ≡ true
      → has j evens ≡ true
      → ((i == r) && (j == c)) ≡ false
      → (b i j == 0) ≡ false

find_in_row-none :
    (b : Cells) (i : ℕ) (js : List ℕ)
    → ((j : ℕ) → has j js ≡ true → (b i j == 0) ≡ false)
    → find_in_row b i js ≡ none
unfolding find_in_row
find_in_row-none b i [] h = refl
find_in_row-none b i (j ∷ js) h =
    ground (arith, h j, find_in_row-none b i js (λ k e. h k (ground arith)))

find_in_row-some :
    (b : Cells) (i c : ℕ) (js : List ℕ)
    → has c js ≡ true
    → b i c ≡ 0
    → ((j : ℕ) → has j js ≡ true → (j == c) ≡ false → (b i j == 0) ≡ false)
    → find_in_row b i js ≡ some c
unfolding find_in_row
find_in_row-some b i c [] m z h = cc
find_in_row-some b i c (j ∷ js) m z h = elim (Bool-cases (j == c)) [
  | inl e ↦ ground (arith, z)
  | inr e ↦
      let rest = find_in_row-some b i c js (ground arith) z (λ k d. h k (ground arith)) in
      ground (arith, h j)
]

module _ (b : Cells) (r c : ℕ) (hole : IsHole b r c) where
  hole_row : find_in_row b r evens ≡ some c
  hole_row =
      let re = hole.row_even in
      find_in_row-some b r c evens hole.col_even hole.empty
        (λ j m ne. hole.full r j re m (ground arith))

  other_row : (i : ℕ) → has i evens ≡ true → (i == r) ≡ false → find_in_row b i evens ≡ none
  other_row i e ne = find_in_row-none b i evens (λ j m. hole.full i j e m (ground arith))

  find_rows :
      (is : List ℕ)
      → ((i : ℕ) → has i is ≡ true → has i evens ≡ true)
      → has r is ≡ true
      → (find_empty_row b is ≡ some r) × (find_empty_col b is ≡ some c)
  unfolding find_empty_row find_empty_col
  find_rows [] sub m = absurd (cc)
  find_rows (i ∷ is) sub m = elim (Bool-cases (i == r)) [
    | inl e ↦ let here = hole_row in (ground (arith, here), ground (arith, here))
    | inr e ↦
        let away = other_row i (sub i (ground arith)) e in
        let rest = find_rows is (λ k h. sub k (ground arith)) (ground arith) in
        (ground (arith, away), ground (arith, away))
  ]

  -- The two searches return the row and the column of the hole.
  pub find_empty_lem : (find_empty_row b evens ≡ some r) × (find_empty_col b evens ≡ some c)
  find_empty_lem = find_rows evens (λ i h. h) hole.row_even

-- After an exchange of the hole with another square, that square is the hole.
pub exchange-IsHole :
    (b : Cells) (i j r c : ℕ)
    → IsHole b r c
    → has i evens ≡ true
    → has j evens ≡ true
    → ((i == r) && (j == c)) ≡ false
    → IsHole (exchange i j r c b) i j
exchange-IsHole b i j r c h ei ej ne = record {
  row_even = ei;
  col_even = ej;
  empty = let z = h.empty in ground arith;
  full = λ p q hp hq apart. let z = h.empty in ground (arith, h.full p q hp hq, h.full i j ei ej);
}
