-- ===== src/Board/Parity.antt =====
-- The parity of the tiles together with the place of the hole never changes, so half of the
-- arrangements cannot be reached.
use cau_assignments.Base.{
  ℕ, zero, suc, ◌<◌, ◌≡◌, ◌≢◌, refl, Bool, true, false, not, ◌&&◌, ◌||◌, List, [], ◌∷◌, ◌==◌, arith,
  has, ◌∙◌, ap, inl, inr, Bool-cases, subst, sym, if◌then◌else◌,
}
use cau_assignments.Board.Ops.{Board, evens, new_board, Direction, left, right, up, down, slide}
use cau_assignments.Board.Hole.{IsHole}
use cau_assignments.Board.Slides.{to_row, to_col, can, slide_lem, slide-IsHole}
use cau_assignments.Board.Games.{Reached, after_game, new_board-IsHole}
use cau_assignments.Board.Rows.{tiles, swaps, Fits, swaps_lem}
use cau_assignments.Board.Swaps.{
  xor, parity, all_distinct, Swapped, swap_all, odd_length, swap_all-Swapped,
}

-- Is the hole an odd number of squares away from the corner?
abbrev pub odd_place : ℕ → ℕ → Bool
odd_place r c = xor ((r == 2) || (r == 6)) ((c == 2) || (c == 6))

place_turns :
    (d : Direction) (r c : ℕ)
    → has r evens ≡ true
    → has c evens ≡ true
    → can d r c ≡ true
    → odd_place (to_row d r) (to_col d c) ≡ not (odd_place r c)
place_turns left r c er ec h = ground arith
place_turns right r c er ec h = ground arith
place_turns up r c er ec h = ground arith
place_turns down r c er ec h = ground arith

odd_swaps : (d : Direction) (r c : ℕ) → odd_length (swaps d r c) ≡ true
unfolding swaps
odd_swaps left r c = refl
odd_swaps right r c = refl
odd_swaps up r c = refl
odd_swaps down r c = refl

-- All numbers below `k` are in the list.
abbrev pub has_all : ℕ → List ℕ → Bool
has_all zero xs = true
has_all (suc k) xs = has k xs && has_all k xs

has_all-same :
    (n : ℕ) (xs ys : List ℕ)
    → ((k : ℕ) → has k ys ≡ has k xs)
    → has_all n xs ≡ true
    → has_all n ys ≡ true
has_all-same zero xs ys h a = refl
has_all-same (suc n) xs ys h a = ground (arith, h n, has_all-same n xs ys h)

pub has_all-member : (n k : ℕ) (xs : List ℕ) → has_all n xs ≡ true → k < n → has k xs ≡ true
has_all-member zero k xs a lt = absurd (omega arith)
has_all-member (suc n) k xs a lt = ground (arith, has_all-member n k xs)

-- Each number below 16 is on the board, no two squares have the same, and the parity of the tiles
-- differs from that of the place of the hole.
pub record Arranged (b : Board) : Type 0 where
  pub row : ℕ
  pub col : ℕ
  pub hole : IsHole b.cells row col
  pub distinct : all_distinct (tiles b.cells) ≡ true
  pub whole : has_all 16 (tiles b.cells) ≡ true
  pub sign : xor (parity (tiles b.cells)) (odd_place row col) ≡ true

Arranged-same : (b b' : Board) → Arranged b → b.cells ≡ b'.cells → Arranged b'
Arranged-same b b' h e = record {
  row = h.row;
  col = h.col;
  hole = subst (λ x. IsHole x h.row h.col) e h.hole;
  distinct = subst (λ x. all_distinct (tiles x) ≡ true) e h.distinct;
  whole = subst (λ x. has_all 16 (tiles x) ≡ true) e h.whole;
  sign = subst (λ x. xor (parity (tiles x)) (odd_place h.row h.col) ≡ true) e h.sign;
}

sign_kept : (p p' o o' : Bool) → p' ≡ not p → o' ≡ not o → xor p o ≡ true → xor p' o' ≡ true
sign_kept p p' o o' e f h = ground arith

Arranged-can :
    (d : Direction) (b : Board) (h : Arranged b) → can d h.row h.col ≡ true → Arranged (slide d b)
unfolding Fits
Arranged-can d b h e =
    let r = h.row in
    let c = h.col in
    let er = h.hole.row_even in
    let ec = h.hole.col_even in
    let fits = swaps_lem d b.cells r c er ec e in
    let same : tiles (slide d b).cells ≡ swap_all (swaps d r c) (tiles b.cells) =
      ap tiles (slide_lem d r c b h.hole) ∙ fits.0 in
    let swapped =
      subst (λ xs. Swapped true (tiles b.cells) xs) (sym same)
        (subst (λ o. Swapped o (tiles b.cells) (swap_all (swaps d r c) (tiles b.cells)))
          (odd_swaps d r c) (swap_all-Swapped (swaps d r c) (tiles b.cells) fits.1 h.distinct)) in
    let turned = swapped.turned in
    let sign = h.sign in
    record {
      row = to_row d r;
      col = to_col d c;
      hole =
          subst
            (λ k.
              IsHole (slide d b).cells (if k then to_row d r else r) (if k then to_col d c else c))
            e (slide-IsHole d r c b h.hole);
      distinct = swapped.distinct;
      whole = has_all-same 16 (tiles b.cells) (tiles (slide d b).cells) swapped.members h.whole;
      sign = let o = place_turns d r c er ec e in sign_kept _ _ _ _ turned o sign;
    }

Arranged-slide : (d : Direction) (b : Board) → Arranged b → Arranged (slide d b)
Arranged-slide d b h = elim (Bool-cases (can d h.row h.col)) [
  | inl e ↦ Arranged-can d b h e
  | inr e ↦ Arranged-same b (slide d b) h (sym (slide_lem d h.row h.col b h.hole ∙ rw e))
]

new_board-Arranged : Arranged new_board
unfolding new_board
new_board-Arranged = record {
  row = 6;
  col = 6;
  hole = new_board-IsHole;
  distinct = refl;
  whole = refl;
  sign = refl;
}

-- Every board of a game has one hole and each of the numbers below 16 on exactly one square, and the
-- parity of its inversions differs from the parity of the distance of the hole from the corner.
pub Reached-Arranged : (b : Board) → Reached b → Arranged b
Reached-Arranged = after_game Arranged new_board-Arranged Arranged-same Arranged-slide

abbrev pub exchanged : List ℕ
exchanged = 1 ∷ 2 ∷ 3 ∷ 4 ∷ 5 ∷ 6 ∷ 7 ∷ 8 ∷ 9 ∷ 10 ∷ 11 ∷ 12 ∷ 13 ∷ 15 ∷ 14 ∷ 0 ∷ []

-- The last element.
last : List ℕ → ℕ
last [] = 0
last (x ∷ []) = x
last (x ∷ y ∷ ys) = last (y ∷ ys)

-- In no game are all tiles in order but for the last two, exchanged.
pub exchanged_unreachable : (b : Board) → Reached b → tiles b.cells ≢ exchanged
unfolding last
exchanged_unreachable b r e =
    let h = Reached-Arranged b r in
    let sign = h.sign in
    let p : parity (tiles b.cells) ≡ false = ap parity e in
    let z : b.cells 6 6 ≡ 0 = ap last e in let full = h.hole.full 6 6 refl refl in ground arith
