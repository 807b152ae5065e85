-- ===== src/Board/Games.antt =====
-- The boards of a game (oopBoard.h, main.cpp): those that moves and shuffles reach from a new board.
use cau_assignments.Base.{
  Option, none, some, ℕ, zero, suc, ◌+◌, ◌%◌, ◌≡◌, refl, Bool, true, false, ◌&&◌, List, [], ◌∷◌,
  ◌++◌, arith, inl, inr, Bool-cases, if◌then◌else◌, subst, sym, ap, ◌∙◌,
}
use cau_assignments.Board.Ops.{
  Board, new_board, did_win, key_direction, press, left, right, up, down, win_rows, win_row,
  Direction, slide, record_win, move, drawn, shuffle_loop, shuffle,
}
use cau_assignments.Board.Hole.{IsHole}
use cau_assignments.Board.Slides.{
  slides, slides-append, slides-same, slides-undo, slide-IsHole, can, row_after, col_after, undo,
}

pub data Reached : Board → Type 0 where
  starts : Reached new_board
  presses : (input : ℕ) (b : Board) → Reached b → Reached (press input b)
  shuffles : (rand : ℕ → ℕ) (b : Board) → Reached b → Reached (shuffle rand b)

move-cells :
    (d : Direction) (check : Bool) (b : Board)
    → (move d check b).cells ≡ (if check && did_win b.cells then b.cells else (slide d b).cells)
unfolding move record_win
move-cells d check b = ground arith

-- What holds of a new board, depends on the cells only and survives slides holds of every board of a
-- game.
module _ (P : Board → Type 0) (base : P new_board)
    (same : (b b' : Board) → P b → b.cells ≡ b'.cells → P b')
    (step : (d : Direction) (b : Board) → P b → P (slide d b)) where
  after_move : (d : Direction) (check : Bool) (b : Board) → P b → P (move d check b)
  after_move d check b h = elim (Bool-cases (check && did_win b.cells)) [
    | inl e ↦ same b (move d check b) h (sym (move-cells d check b ∙ rw e))
    | inr e ↦ same (slide d b) (move d check b) (step d b h) (sym (move-cells d check b ∙ rw e))
  ]

  after_shuffle : (rand : ℕ → ℕ) (n i : ℕ) (b : Board) → P b → P (shuffle_loop rand n i b)
  unfolding shuffle_loop
  after_shuffle rand zero i b h = h
  after_shuffle rand (suc n) i b h =
      after_shuffle rand n (i + 1) (move (drawn (rand i % 4)) false b)
        (after_move (drawn (rand i % 4)) false b h)

  after_key :
      (k : Option Direction) (b : Board) → P b → P (elim k [ none ↦ b | some d ↦ move d true b ])
  after_key none b h = h
  after_key (some d) b h = after_move d true b h

  pub after_game : (b : Board) → Reached b → P b
  unfolding shuffle press
  after_game b starts = base
  after_game b (presses input b' r) = after_key (key_direction input) b' (after_game b' r)
  after_game b (shuffles rand b' r) =
      same (shuffle_loop rand 200 0 b') (shuffle rand b')
        (after_shuffle rand 200 0 b' (after_game b' r)) refl

-- One hole, and slides that lead back to the cells of a new board.
pub record Home (b : Board) : Type 0 where
  pub row : ℕ
  pub col : ℕ
  pub hole : IsHole b.cells row col
  pub way : List Direction
  pub leads : (slides way b).cells ≡ new_board.cells

Home-same : (b b' : Board) → Home b → b.cells ≡ b'.cells → Home b'
Home-same b b' h e = record {
  row = h.row;
  col = h.col;
  hole = subst (λ x. IsHole x h.row h.col) e h.hole;
  way = h.way;
  leads = sym (slides-same h.way h.row h.col b b' h.hole e) ∙ h.leads;
}

Home-slide : (d : Direction) (b : Board) → Home b → Home (slide d b)
Home-slide d b h =
    let back = undo (can d h.row h.col) d in
    let undone = slides-undo d h.row h.col b h.hole in
    record {
      row = row_after d h.row h.col;
      col = col_after d h.row h.col;
      hole = slide-IsHole d h.row h.col b h.hole;
      way = back ++ h.way;
      leads =
          ap (λ x. x.cells) (slides-append back h.way (slide d b))
          ∙ slides-same h.way h.row h.col (slides back (slide d b)) b
              (subst (λ x. IsHole x h.row h.col) (sym undone) h.hole) undone
          ∙ h.leads;
    }

pub new_board-IsHole : IsHole new_board.cells 6 6
unfolding new_board
new_board-IsHole = record {
  row_even = refl;
  col_even = refl;
  empty = refl;
  full = λ i j ei ej ne. ground arith;
}

pub Reached-Home : (b : Board) → Reached b → Home b
Reached-Home =
    after_game Home (record { row = 6; col = 6; hole = new_board-IsHole; way = []; leads = refl })
      Home-same Home-slide

-- The codes of the arrow keys.
abbrev code : Direction → ℕ
code left = 75
code right = 77
code up = 72
code down = 80

press-code : (d : Direction) (b : Board) → press (code d) b ≡ move d true b
unfolding press
press-code left b = refl
press-code right b = refl
press-code up b = refl
press-code down b = refl

-- What the player does.
abbrev pub play : List ℕ → Board → Board
play [] b = b
play (k ∷ ks) b = play ks (press k b)

after_code :
    (d : Direction) (ks : List ℕ) (b : Board)
    → did_win (play ks (move d true b)).cells ≡ true
    → did_win (play (code d ∷ ks) b).cells ≡ true
after_code d ks b w = subst (λ x. did_win (play ks x).cells ≡ true) (sym (press-code d b)) w

abbrev codes : List Direction → List ℕ
codes [] = []
codes (d ∷ ds) = code d ∷ codes ds

play-won :
    (ds : List Direction) (b : Board)
    → did_win b.cells ≡ true
    → did_win (play (codes ds) b).cells ≡ true
play-won [] b w = w
play-won (d ∷ ds) b w =
    after_code d (codes ds) b
      (play-won ds (move d true b) (ap did_win (move-cells d true b ∙ rw w) ∙ w))

play-slides :
    (ds : List Direction) (r c : ℕ) (b : Board)
    → IsHole b.cells r c
    → did_win (slides ds b).cells ≡ true
    → did_win (play (codes ds) b).cells ≡ true
play-slides [] r c b h w = w
play-slides (d ∷ ds) r c b h w = elim (Bool-cases (did_win b.cells)) [
  | inl e ↦ play-won (d ∷ ds) b e
  | inr e ↦
      let r' = row_after d r c in
      let c' = col_after d r c in
      let same : (move d true b).cells ≡ (slide d b).cells = move-cells d true b ∙ rw e in
      let h' : IsHole (move d true b).cells r' c' =
        subst (λ x. IsHole x r' c') (sym same) (slide-IsHole d r c b h) in
      after_code d (codes ds) b (
        play-slides ds r' c' (move d true b) h'
          (ap did_win (slides-same ds r' c' (move d true b) (slide d b) h' same) ∙ w))
]

new_board-won : did_win new_board.cells ≡ true
unfolding did_win new_board win_rows win_row
new_board-won = refl

-- Every board of a game, after whatever moves and shuffles, has exactly one hole and can be solved:
-- there is a sequence of keys after which the game is won.
pub Reached-solvable :
    (b : Board)
    → Reached b
    → ((r : ℕ) × (c : ℕ) × IsHole b.cells r c)
      × ((ks : List ℕ) × (did_win (play ks b).cells ≡ true))
Reached-solvable b r =
    let h = Reached-Home b r in
    (
      (h.row, h.col, h.hole),
      (codes h.way, play-slides h.way h.row h.col b h.hole (ap did_win h.leads ∙ new_board-won)),
    )
