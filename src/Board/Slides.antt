-- ===== src/Board/Slides.antt =====
-- What a slide does to a board with one hole, and how it is undone.
use cau_assignments.Base.{
  ℕ, ◌+◌, ◌-◌, ◌≡◌, refl, Bool, true, false, ◌&&◌, List, [], ◌∷◌, ◌++◌, ◌==◌, arith, has, inl, inr,
  Bool-cases, if◌then◌else◌, subst, sym, ltb, fun_ext, ap, ◌∙◌,
}
use cau_assignments.Board.Ops.{
  Cells, Board, evens, exchange, Direction, left, right, up, down, slide_at, slide,
}
use cau_assignments.Board.Hole.{IsHole, find_empty_lem, exchange-IsHole}

abbrev pub opposite : Direction → Direction
opposite left = right
opposite right = left
opposite up = down
opposite down = up

-- Where the hole goes, and whether it can.
abbrev pub to_row : Direction → ℕ → ℕ
to_row left r = r
to_row right r = r
to_row up r = r - 2
to_row down r = r + 2

abbrev pub to_col : Direction → ℕ → ℕ
to_col left c = c - 2
to_col right c = c + 2
to_col up c = c
to_col down c = c

abbrev pub can : Direction → ℕ → ℕ → Bool
can left r c = ltb 0 c
can right r c = ltb c 6
can up r c = ltb 0 r
can down r c = ltb r 6

abbrev pub slid : Direction → ℕ → ℕ → Cells → Cells
slid d r c b = if can d r c then exchange (to_row d r) (to_col d c) r c b else b

even_bound : (x : ℕ) → has x evens ≡ true → ltb x 7 ≡ true
even_bound x e = ground arith

pub slide_at-cells :
    (d : Direction) (r c : ℕ) (b : Board)
    → has r evens ≡ true
    → has c evens ≡ true
    → (slide_at d r c b).cells ≡ slid d r c b.cells
unfolding slide_at
slide_at-cells left r c b er ec = ground (arith, even_bound r er, even_bound c ec)
slide_at-cells right r c b er ec = ground (arith, even_bound r er, even_bound c ec)
slide_at-cells up r c b er ec = ground (arith, even_bound r er, even_bound c ec)
slide_at-cells down r c b er ec = ground (arith, even_bound r er, even_bound c ec)

pub slide_at-slide :
    (d : Direction) (r c : ℕ) (b : Board) → IsHole b.cells r c → slide d b ≡ slide_at d r c b
unfolding slide
slide_at-slide d r c b h =
    let f = find_empty_lem b.cells r c h in let e = f.0 in let e' = f.1 in ground arith

pub slide_lem :
    (d : Direction) (r c : ℕ) (b : Board)
    → IsHole b.cells r c
    → (slide d b).cells ≡ slid d r c b.cells
slide_lem d r c b h =
    ap (λ x. x.cells) (slide_at-slide d r c b h) ∙ slide_at-cells d r c b h.row_even h.col_even

-- The hole after a slide.
abbrev pub row_after : Direction → ℕ → ℕ → ℕ
row_after d r c = if can d r c then to_row d r else r

abbrev pub col_after : Direction → ℕ → ℕ → ℕ
col_after d r c = if can d r c then to_col d c else c

to_even :
    (d : Direction) (r c : ℕ)
    → has r evens ≡ true
    → has c evens ≡ true
    → can d r c ≡ true
    → (has (to_row d r) evens ≡ true)
      × (has (to_col d c) evens ≡ true)
      × (((to_row d r == r) && (to_col d c == c)) ≡ false)
      × (can (opposite d) (to_row d r) (to_col d c) ≡ true)
      × (to_row (opposite d) (to_row d r) ≡ r)
      × (to_col (opposite d) (to_col d c) ≡ c)
to_even left r c er ec h =
    (ground arith, ground arith, ground arith, ground arith, ground arith, ground arith)
to_even right r c er ec h =
    (ground arith, ground arith, ground arith, ground arith, ground arith, ground arith)
to_even up r c er ec h =
    (ground arith, ground arith, ground arith, ground arith, ground arith, ground arith)
to_even down r c er ec h =
    (ground arith, ground arith, ground arith, ground arith, ground arith, ground arith)

exchange_twice : (b : Cells) (i j r c : ℕ) → exchange r c i j (exchange i j r c b) ≡ b
exchange_twice b i j r c = fun_ext (λ p. fun_ext (λ q. ground arith))

pub slid-undo :
    (d : Direction) (r c : ℕ) (b : Cells)
    → has r evens ≡ true
    → has c evens ≡ true
    → can d r c ≡ true
    → slid (opposite d) (to_row d r) (to_col d c) (slid d r c b) ≡ b
slid-undo d r c b er ec h =
    let (_, _, _, back, e, e') = to_even d r c er ec h in
    rw (h, back, e, e') (exchange_twice b (to_row d r) (to_col d c) r c)

-- A slide leaves a board with one hole.
pub slide-IsHole :
    (d : Direction) (r c : ℕ) (b : Board)
    → IsHole b.cells r c
    → IsHole (slide d b).cells (row_after d r c) (col_after d r c)
slide-IsHole d r c b h =
    subst (λ x. IsHole x (row_after d r c) (col_after d r c)) (sym (slide_lem d r c b h))
      (elim (Bool-cases (can d r c)) [
        | inl e ↦
            let (er, ec, ne, _, _, _) = to_even d r c h.row_even h.col_even e in
            rw e (exchange-IsHole b.cells (to_row d r) (to_col d c) r c h er ec ne)
        | inr e ↦ rw e h
      ])

-- What cells a slide leaves depends on the cells only.
pub slide-same :
    (d : Direction) (r c : ℕ) (b b' : Board)
    → IsHole b.cells r c
    → b.cells ≡ b'.cells
    → (slide d b).cells ≡ (slide d b').cells
slide-same d r c b b' h e =
    slide_lem d r c b h
    ∙ ap (slid d r c) e
    ∙ sym (slide_lem d r c b' (subst (λ x. IsHole x r c) e h))

-- The opposite slide takes a slide back.
slide-undo :
    (d : Direction) (r c : ℕ) (b : Board)
    → IsHole b.cells r c
    → can d r c ≡ true
    → (slide (opposite d) (slide d b)).cells ≡ b.cells
slide-undo d r c b h e =
    let after : IsHole (slide d b).cells (to_row d r) (to_col d c) =
      subst
        (λ k. IsHole (slide d b).cells (if k then to_row d r else r) (if k then to_col d c else c))
        e (slide-IsHole d r c b h) in
    slide_lem (opposite d) (to_row d r) (to_col d c) (slide d b) after
    ∙ ap (slid (opposite d) (to_row d r) (to_col d c)) (slide_lem d r c b h)
    ∙ slid-undo d r c b.cells h.row_even h.col_even e

slide-stays :
    (d : Direction) (r c : ℕ) (b : Board)
    → IsHole b.cells r c
    → can d r c ≡ false
    → (slide d b).cells ≡ b.cells
slide-stays d r c b h e =
    slide_lem d r c b h
    ∙ ap (λ k. if k then exchange (to_row d r) (to_col d c) r c b.cells else b.cells) e

-- One slide after the other.
abbrev pub slides : List Direction → Board → Board
slides [] b = b
slides (d ∷ ds) b = slides ds (slide d b)

pub slides-append :
    (ds es : List Direction) (b : Board) → slides (ds ++ es) b ≡ slides es (slides ds b)
slides-append [] es b = refl
slides-append (d ∷ ds) es b = slides-append ds es (slide d b)

pub slides-same :
    (ds : List Direction) (r c : ℕ) (b b' : Board)
    → IsHole b.cells r c
    → b.cells ≡ b'.cells
    → (slides ds b).cells ≡ (slides ds b').cells
slides-same [] r c b b' h e = e
slides-same (d ∷ ds) r c b b' h e =
    slides-same ds (row_after d r c) (col_after d r c) (slide d b) (slide d b')
      (slide-IsHole d r c b h) (slide-same d r c b b' h e)

-- The slides that take one slide back: none, if it could not be made.
abbrev pub undo : Bool → Direction → List Direction
undo moved d = if moved then opposite d ∷ [] else []

-- The opposite slide restores the cells of a board with one hole after a slide that could be made; a
-- slide that could not be made changes no cell.
pub slides-undo :
    (d : Direction) (r c : ℕ) (b : Board)
    → IsHole b.cells r c
    → (slides (undo (can d r c) d) (slide d b)).cells ≡ b.cells
slides-undo d r c b h = elim (Bool-cases (can d r c)) [
  | inl e ↦
      subst (λ k. (slides (undo k d) (slide d b)).cells ≡ b.cells) (sym e) (slide-undo d r c b h e)
  | inr e ↦
      subst (λ k. (slides (undo k d) (slide d b)).cells ≡ b.cells) (sym e) (slide-stays d r c b h e)
]
