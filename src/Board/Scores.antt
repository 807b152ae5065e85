-- ===== src/Board/Scores.antt =====
-- When a game is won, and the best score.
use cau_assignments.Base.{
  ℕ, ◌-◌, ◌^◌, ◌≤◌, ◌<◌, ◌≡◌, ◌↔◌, refl, Bool, true, ◌&&◌, ◌||◌, some, List, [], ◌∷◌, ◌==◌, arith,
  has, leb, ltb, sym, ◌∙◌, if◌then◌else◌,
}
use cau_assignments.Base.Words.{gt_int}
use cau_assignments.Board.Ops.{Cells, Board, did_win, win_rows, win_row, max_score, score_loop}
use cau_assignments.Board.Rows.{tiles}
use cau_assignments.Board.Games.{Reached}
use cau_assignments.Board.Parity.{Reached-Arranged, has_all-member}

abbrev pub solved : List ℕ
solved = 1 ∷ 2 ∷ 3 ∷ 4 ∷ 5 ∷ 6 ∷ 7 ∷ 8 ∷ 9 ∷ 10 ∷ 11 ∷ 12 ∷ 13 ∷ 14 ∷ 15 ∷ 0 ∷ []

in_order : Cells → Bool
in_order b =
    (b 0 0 == 1)
    && (b 0 2 == 2)
    && (b 0 4 == 3)
    && (b 0 6 == 4)
    && (b 2 0 == 5)
    && (b 2 2 == 6)
    && (b 2 4 == 7)
    && (b 2 6 == 8)
    && (b 4 0 == 9)
    && (b 4 2 == 10)
    && (b 4 4 == 11)
    && (b 4 6 == 12)
    && (b 6 0 == 13)
    && (b 6 2 == 14)
    && (b 6 4 == 15)

did_win_lem : (b : Cells) → did_win b ≡ in_order b
unfolding did_win win_rows win_row in_order
did_win_lem b = ground arith

in_order-solved : (b : Cells) → in_order b ≡ true → has 0 (tiles b) ≡ true → tiles b ≡ solved
unfolding in_order
in_order-solved b h z = ground arith

solved-in_order : (b : Cells) → tiles b ≡ solved → in_order b ≡ true
unfolding in_order
solved-in_order b e = ground arith

-- On a board of a game, `didWin` returns true exactly when the tiles are in order and the hole is last.
pub did_win-solved : (b : Board) → Reached b → (did_win b.cells ≡ true) ↔ (tiles b.cells ≡ solved)
did_win-solved b r =
    let w = did_win_lem b.cells in
    let zero_there : has 0 (tiles b.cells) ≡ true =
      has_all-member 16 0 (tiles b.cells) ((Reached-Arranged b r).whole) (omega arith) in
    (λ e. in_order-solved b.cells (sym w ∙ e) zero_there, λ e. w ∙ solved-in_order b.cells e)

-- All scores are below a bound, and do not exceed the best one.
abbrev pub all_at_most : ℕ → List ℕ → Bool
all_at_most m [] = true
all_at_most m (x ∷ xs) = leb x m && all_at_most m xs

all_at_most-weaken :
    (m n : ℕ) (xs : List ℕ) → m ≤ n → all_at_most m xs ≡ true → all_at_most n xs ≡ true
all_at_most-weaken m n [] le h = refl
all_at_most-weaken m n (x ∷ xs) le h = ground (arith, all_at_most-weaken m n xs le)

-- On counts that are not negative the comparison of `int`s is that of numbers.
gt_int-ltb : (x m : ℕ) → x < 2 ^ 31 → m < 2 ^ 31 → gt_int x m ≡ ltb m x
gt_int-ltb x m hx hm = ground arith

score_loop_lem :
    (xs : List ℕ) (m : ℕ)
    → m < 2 ^ 31
    → all_at_most (2 ^ 31 - 1) xs ≡ true
    → (m ≤ score_loop xs m)
      × (all_at_most (score_loop xs m) xs ≡ true)
      × (((score_loop xs m == m) || has (score_loop xs m) xs) ≡ true)
unfolding score_loop
score_loop_lem [] m hm h = (omega arith, refl, ground arith)
score_loop_lem (x ∷ xs) m hm h =
    let m' = if gt_int x m then x else m in
    let g = gt_int-ltb x m (ground arith) hm in
    let (le, most, found) = score_loop_lem xs m' (ground arith) (ground arith) in
    (ground arith, ground arith, ground arith)

best_found :
    (m x : ℕ) (xs : List ℕ)
    → ((m == 0) || has m (x ∷ xs)) ≡ true
    → all_at_most m (x ∷ xs) ≡ true
    → has m (x ∷ xs) ≡ true
best_found m x xs f h = ground arith

-- With counts of moves below 2^31, `maxScore` returns the largest one of a list that is not empty.
pub max_score_lem :
    (b : Board) (x : ℕ) (xs : List ℕ)
    → b.game_records ≡ x ∷ xs
    → all_at_most (2 ^ 31 - 1) (x ∷ xs) ≡ true
    → (m : ℕ) × (max_score b ≡ some m) × (all_at_most m (x ∷ xs) ≡ true) × (has m (x ∷ xs) ≡ true)
unfolding max_score
max_score_lem b x xs e h =
    let m = score_loop (x ∷ xs) 0 in
    let (_, most, found) = score_loop_lem (x ∷ xs) 0 (omega arith) h in
    (m, ground arith, most, best_found m x xs found most)
