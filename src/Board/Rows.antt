-- ===== src/Board/Rows.antt =====
-- A slide as swaps of neighbours in the list of the tiles.
use cau_assignments.Base.{
  ℕ, zero, suc, ◌+◌, ◌-◌, ◌*◌, ◌/◌, ◌≡◌, refl, true, List, [], ◌∷◌, arith, has,
}
use cau_assignments.Board.Ops.{Cells, evens, Direction, left, right, up, down}
use cau_assignments.Board.Slides.{can, slid}
use cau_assignments.Board.Swaps.{swap_next, swap_all, all_below}

-- The tiles and the hole, row by row.
abbrev pub tiles : Cells → List ℕ
tiles b =
    b 0 0
    ∷ b 0 2
    ∷ b 0 4
    ∷ b 0 6
    ∷ b 2 0
    ∷ b 2 2
    ∷ b 2 4
    ∷ b 2 6
    ∷ b 4 0
    ∷ b 4 2
    ∷ b 4 4
    ∷ b 4 6
    ∷ b 6 0
    ∷ b 6 2
    ∷ b 6 4
    ∷ b 6 6
    ∷ []

place : ℕ → ℕ → ℕ
place r c = 2 * r + c / 2

-- Swaps of neighbours that exchange the places `m` and `m + 4`.
abbrev far : ℕ → List ℕ
far m = m ∷ (m + 1) ∷ (m + 2) ∷ (m + 3) ∷ (m + 2) ∷ (m + 1) ∷ m ∷ []

unfoldable pub swaps : Direction → ℕ → ℕ → List ℕ
unfolding place
swaps left r c = (place r c - 1) ∷ []
swaps right r c = place r c ∷ []
swaps up r c = far (place r c - 4)
swaps down r c = far (place r c)

even_elim : (P : ℕ → Type 0) → P 0 → P 2 → P 4 → P 6 → (x : ℕ) → has x evens ≡ true → P x
even_elim P p0 p2 p4 p6 zero h = p0
even_elim P p0 p2 p4 p6 (suc zero) h = cc
even_elim P p0 p2 p4 p6 (suc (suc zero)) h = p2
even_elim P p0 p2 p4 p6 (suc (suc (suc zero))) h = cc
even_elim P p0 p2 p4 p6 (suc (suc (suc (suc zero)))) h = p4
even_elim P p0 p2 p4 p6 (suc (suc (suc (suc (suc zero))))) h = cc
even_elim P p0 p2 p4 p6 (suc (suc (suc (suc (suc (suc zero)))))) h = p6
even_elim P p0 p2 p4 p6 (suc (suc (suc (suc (suc (suc (suc x))))))) h = absurd (ground arith)

unfoldable pub Fits : Direction → Cells → ℕ → ℕ → Type 0
Fits d b r c =
    can d r c ≡ true
    → (tiles (slid d r c b) ≡ swap_all (swaps d r c) (tiles b))
      × (all_below 16 (swaps d r c) ≡ true)

swaps_row :
    (d : Direction) (b : Cells) (r : ℕ)
    → Fits d b r 0
    → Fits d b r 2
    → Fits d b r 4
    → Fits d b r 6
    → (c : ℕ) → has c evens ≡ true
    → Fits d b r c
swaps_row d b r = even_elim (Fits d b r)

swaps_left : (b : Cells) (r c : ℕ) → has r evens ≡ true → has c evens ≡ true → Fits left b r c
unfolding Fits swaps swap_next place
swaps_left b r c er ec =
    even_elim (λ r. Fits left b r c)
      (swaps_row left b 0 (λ h. cc) (λ h. (refl, refl)) (λ h. (refl, refl)) (λ h. (refl, refl)) c
        ec)
      (swaps_row left b 2 (λ h. cc) (λ h. (refl, refl)) (λ h. (refl, refl)) (λ h. (refl, refl)) c
        ec)
      (swaps_row left b 4 (λ h. cc) (λ h. (refl, refl)) (λ h. (refl, refl)) (λ h. (refl, refl)) c
        ec)
      (swaps_row left b 6 (λ h. cc) (λ h. (refl, refl)) (λ h. (refl, refl)) (λ h. (refl, refl)) c
        ec)
      r er

swaps_right : (b : Cells) (r c : ℕ) → has r evens ≡ true → has c evens ≡ true → Fits right b r c
unfolding Fits swaps swap_next place
swaps_right b r c er ec =
    even_elim (λ r. Fits right b r c)
      (swaps_row right b 0 (λ h. (refl, refl)) (λ h. (refl, refl)) (λ h. (refl, refl)) (λ h. cc) c
        ec)
      (swaps_row right b 2 (λ h. (refl, refl)) (λ h. (refl, refl)) (λ h. (refl, refl)) (λ h. cc) c
        ec)
      (swaps_row right b 4 (λ h. (refl, refl)) (λ h. (refl, refl)) (λ h. (refl, refl)) (λ h. cc) c
        ec)
      (swaps_row right b 6 (λ h. (refl, refl)) (λ h. (refl, refl)) (λ h. (refl, refl)) (λ h. cc) c
        ec)
      r er

swaps_up : (b : Cells) (r c : ℕ) → has r evens ≡ true → has c evens ≡ true → Fits up b r c
unfolding Fits swaps swap_next place
swaps_up b r c er ec =
    even_elim (λ r. Fits up b r c) (swaps_row up b 0 (λ h. cc) (λ h. cc) (λ h. cc) (λ h. cc) c ec)
      (swaps_row up b 2 (λ h. (refl, refl)) (λ h. (refl, refl)) (λ h. (refl, refl))
        (λ h. (refl, refl)) c ec)
      (swaps_row up b 4 (λ h. (refl, refl)) (λ h. (refl, refl)) (λ h. (refl, refl))
        (λ h. (refl, refl)) c ec)
      (swaps_row up b 6 (λ h. (refl, refl)) (λ h. (refl, refl)) (λ h. (refl, refl))
        (λ h. (refl, refl)) c ec)
      r er

swaps_down : (b : Cells) (r c : ℕ) → has r evens ≡ true → has c evens ≡ true → Fits down b r c
unfolding Fits swaps swap_next place
swaps_down b r c er ec =
    even_elim (λ r. Fits down b r c)
      (swaps_row down b 0 (λ h. (refl, refl)) (λ h. (refl, refl)) (λ h. (refl, refl))
        (λ h. (refl, refl)) c ec)
      (swaps_row down b 2 (λ h. (refl, refl)) (λ h. (refl, refl)) (λ h. (refl, refl))
        (λ h. (refl, refl)) c ec)
      (swaps_row down b 4 (λ h. (refl, refl)) (λ h. (refl, refl)) (λ h. (refl, refl))
        (λ h. (refl, refl)) c ec)
      (swaps_row down b 6 (λ h. cc) (λ h. cc) (λ h. cc) (λ h. cc) c ec) r er

pub swaps_lem :
    (d : Direction) (b : Cells) (r c : ℕ) → has r evens ≡ true → has c evens ≡ true → Fits d b r c
swaps_lem left b r c er ec = swaps_left b r c er ec
swaps_lem right b r c er ec = swaps_right b r c er ec
swaps_lem up b r c er ec = swaps_up b r c er ec
swaps_lem down b r c er ec = swaps_down b r c er ec
