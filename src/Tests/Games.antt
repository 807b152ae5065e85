-- ===== src/Tests/Games.antt =====
-- Tests of the board: a slide from the new board and back.
use cau_assignments.Base.{ℕ, ◌≡◌, ◌≢◌, true, List}
use cau_assignments.Board.Ops.{Board, new_board, press, did_win, shuffle}
use cau_assignments.Board.Hole.{IsHole}
use cau_assignments.Board.Games.{Reached, starts, presses, shuffles, play, Reached-solvable}
use cau_assignments.Board.Rows.{tiles}
use cau_assignments.Board.Parity.{Arranged, Reached-Arranged, exchanged, exchanged_unreachable}

-- A new board, a shuffle that always draws "up", and a key.
abbrev b : Board
b = press 75 (shuffle (λ i. 2) new_board)

b-Reached : Reached b
b-Reached = presses 75 (shuffle (λ i. 2) new_board) (shuffles (λ i. 2) new_board starts)

Reached-solvable_example :
    ((r : ℕ) × (c : ℕ) × IsHole b.cells r c) × ((ks : List ℕ) × (did_win (play ks b).cells ≡ true))
Reached-solvable_example = Reached-solvable b b-Reached

Reached-Arranged_example : Arranged b
Reached-Arranged_example = Reached-Arranged b b-Reached

exchanged_unreachable_example : tiles b.cells ≢ exchanged
exchanged_unreachable_example = exchanged_unreachable b b-Reached
