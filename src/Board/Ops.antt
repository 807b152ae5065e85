-- ===== src/Board/Ops.antt =====
-- The class Board of oopBoard.h. The board has 7 by 7 squares; those with an even row and an even
-- column hold the tiles, and 0 is the hole.
use Prim.Native.String.{String}
use cau_assignments.Base.{
  ℕ, zero, suc, ◌+◌, ◌-◌, ◌%◌, ◌^◌, Bool, true, false, ◌&&◌, Option, none, some, List, [], ◌∷◌,
  ◌++◌, ◌==◌, ltb, if◌then◌else◌,
}
use cau_assignments.Base.Words.{gt_int}

-- `int board[7][7]`
abbrev pub Cells : Type 0
Cells = ℕ → ℕ → ℕ

-- Integers are bit patterns of 32 bits. `game_records` has the member `movecount` of each record.
pub record Board : Type 0 where
  pub cells : Cells
  pub move_count : ℕ
  pub game_records : List ℕ
  pub message : String

-- The values of a loop `for (int i = 0; i < 7; i += 2)`.
abbrev pub evens : List ℕ
evens = 0 ∷ 2 ∷ 4 ∷ 6 ∷ []

abbrev pub put_cell : ℕ → ℕ → ℕ → Cells → Cells
put_cell i j x b = λ r c. if (r == i) && (c == j) then x else b r c

unfoldable pub score_loop : List ℕ → ℕ → ℕ
score_loop [] m = m
score_loop (x ∷ xs) m = score_loop xs (if gt_int x m then x else m)

-- `none` is the result -1 of `maxScore`.
unfoldable pub max_score : Board → Option ℕ
unfolding score_loop
max_score b = elim b.game_records [ [] ↦ none | x ∷ xs ↦ some (score_loop (x ∷ xs) 0) ]

-- The second pair of loops of the constructor, with `temp`.
fill_row : ℕ → List ℕ → Cells × ℕ → Cells × ℕ
fill_row i [] (b, temp) = (b, temp)
fill_row i (j ∷ js) (b, temp) = fill_row i js (put_cell i j temp b, temp + 1)

fill_rows : List ℕ → Cells × ℕ → Cells × ℕ
unfolding fill_row
fill_rows [] s = s
fill_rows (i ∷ is) s = fill_rows is (fill_row i evens s)

unfoldable pub new_board : Board
unfolding fill_rows
new_board = record {
  cells = put_cell 6 6 0 ((fill_rows evens (λ r c. 0, 1)).0);
  move_count = 0;
  game_records = [];
  message = "";
}

-- The inner loop of `findEmptyRow` and `findEmptyCol`: the column of the first hole of a row.
unfoldable pub find_in_row : Cells → ℕ → List ℕ → Option ℕ
find_in_row b i [] = none
find_in_row b i (j ∷ js) = let rest = find_in_row b i js in if b i j == 0 then some j else rest

-- `none` is the result -1.
unfoldable pub find_empty_row : Cells → List ℕ → Option ℕ
find_empty_row b [] = none
find_empty_row b (i ∷ is) =
    let rest = find_empty_row b is in elim (find_in_row b i evens) [ some j ↦ some i | none ↦ rest ]

unfoldable pub find_empty_col : Cells → List ℕ → Option ℕ
find_empty_col b [] = none
find_empty_col b (i ∷ is) =
    let rest = find_empty_col b is in elim (find_in_row b i evens) [ some j ↦ some j | none ↦ rest ]

abbrev pub exchange : ℕ → ℕ → ℕ → ℕ → Cells → Cells
exchange i j r c b = put_cell r c (b i j) (put_cell i j (b r c) b)

-- `swap (board[i][j], board[r][c])`
abbrev pub swap : ℕ → ℕ → ℕ → ℕ → Board → Board
swap i j r c b = record b {
  cells = exchange i j r c b.cells;
  move_count = (b.move_count + 1) % 2 ^ 32;
}

-- The rows of `didWin` from a column on: `none` where the function returns false, else `temp`.
unfoldable pub win_row : Cells → ℕ → List ℕ → ℕ → Option ℕ
win_row b i [] temp = some temp
win_row b i (j ∷ js) temp =
    let rest = win_row b i js (temp + 1) in
    if (i == 6) && (j == 6) then some temp else (if b i j == temp then rest else none)

unfoldable pub win_rows : Cells → List ℕ → ℕ → Bool
win_rows b [] temp = true
win_rows b (i ∷ is) temp = elim (win_row b i evens temp) [ none ↦ false | some t ↦ win_rows b is t ]

unfoldable pub did_win : Cells → Bool
did_win b = win_rows b evens 1

pub data Direction : Type 0 where
  left right up down : Direction

-- The middle part of `moveLeft`, `moveRight`, `moveUp` and `moveDown`, with the hole at `r`, `c`.
-- The tests for results that are not negative hold of the numbers here.
unfoldable pub slide_at : Direction → ℕ → ℕ → Board → Board
slide_at left r c b = if ltb r 7 && ltb c 7 && ltb 0 c then swap r (c - 2) r c b else b
slide_at right r c b = if ltb r 7 && ltb c 6 then swap r (c + 2) r c b else b
slide_at up r c b = if ltb r 7 && ltb c 7 && ltb 0 r then swap (r - 2) c r c b else b
slide_at down r c b = if ltb r 6 && ltb c 7 then swap (r + 2) c r c b else b

unfoldable pub slide : Direction → Board → Board
slide d b = elim (find_empty_row b.cells evens) [
  | none ↦ b
  | some r ↦ elim (find_empty_col b.cells evens) [ none ↦ b | some c ↦ slide_at d r c b ]
]

-- The last part: a game that is won is recorded.
unfoldable pub record_win : Bool → Board → Board
record_win check b =
    if check && did_win b.cells
    then record b { game_records = b.game_records ++ b.move_count ∷ [] }
    else b

unfoldable pub move : Direction → Bool → Board → Board
move d check b =
    if check && did_win b.cells
    then record b { message = "Please start new game." }
    else record_win check (slide d b)

-- `switch (rand() % 4)`
abbrev pub drawn : ℕ → Direction
drawn x = if x == 0 then left else (if x == 1 then right else (if x == 2 then up else down))

-- The loop of `shuffle`, from the call number `i` of `rand` on.
unfoldable pub shuffle_loop : (ℕ → ℕ) → ℕ → ℕ → Board → Board
shuffle_loop rand zero i b = b
shuffle_loop rand (suc n) i b = shuffle_loop rand n (i + 1) (move (drawn (rand i % 4)) false b)

unfoldable pub shuffle : (ℕ → ℕ) → Board → Board
shuffle rand b = record (shuffle_loop rand 200 0 b) { move_count = 0 }

-- The input loop of main.cpp behind the prefix 224: `input` is the code of an arrow key.
abbrev pub key_direction : ℕ → Option Direction
key_direction input =
    if input == 72
    then some up
    else (if input == 80
        then some down
        else (if input == 75 then some left else (if input == 77 then some right else none)))

unfoldable pub press : ℕ → Board → Board
press input b = elim (key_direction input) [ none ↦ b | some d ↦ move d true b ]
