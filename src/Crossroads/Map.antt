-- ===== src/Crossroads/Map.antt =====
-- Positions, the paths of the vehicles, and the zones of the map (vehicle.c).
use cau_assignments.Base.{ℕ, ◌-◌, ◌^◌, Bool, ◌&&◌, ◌||◌, List, [], ◌∷◌, ◌==◌, get_or}

-- The integers are bit patterns of 32 bits.
pub record Position : Type 0 where
  pub row : ℕ
  pub col : ℕ

abbrev pub pos : ℕ → ℕ → Position
pos r c = record { row = r; col = c }

abbrev pub minus_one : ℕ
minus_one = 2 ^ 32 - 1

abbrev pub outside : Position
outside = pos minus_one minus_one

-- The initialisers of the table; what is left of its ten places per path is zero.
abbrev pub paths : List (List (List Position))
paths =
    ((outside ∷ [])
      ∷ (pos 4 0 ∷ pos 4 1 ∷ pos 4 2 ∷ pos 5 2 ∷ pos 6 2 ∷ outside ∷ [])
      ∷ (pos 4 0 ∷ pos 4 1 ∷ pos 4 2 ∷ pos 4 3 ∷ pos 4 4 ∷ pos 4 5 ∷ pos 4 6 ∷ outside ∷ [])
      ∷ (pos 4 0
          ∷ pos 4 1
          ∷ pos 4 2
          ∷ pos 4 3
          ∷ pos 4 4
          ∷ pos 3 4
          ∷ pos 2 4
          ∷ pos 1 4
          ∷ pos 0 4
          ∷ outside
          ∷ [])
      ∷ [])
    ∷ ((pos 6 4
          ∷ pos 5 4
          ∷ pos 4 4
          ∷ pos 3 4
          ∷ pos 2 4
          ∷ pos 2 3
          ∷ pos 2 2
          ∷ pos 2 1
          ∷ pos 2 0
          ∷ outside
          ∷ [])
        ∷ (outside ∷ [])
        ∷ (pos 6 4 ∷ pos 5 4 ∷ pos 4 4 ∷ pos 4 5 ∷ pos 4 6 ∷ outside ∷ [])
        ∷ (pos 6 4 ∷ pos 5 4 ∷ pos 4 4 ∷ pos 3 4 ∷ pos 2 4 ∷ pos 1 4 ∷ pos 0 4 ∷ outside ∷ [])
        ∷ [])
    ∷ ((pos 2 6 ∷ pos 2 5 ∷ pos 2 4 ∷ pos 2 3 ∷ pos 2 2 ∷ pos 2 1 ∷ pos 2 0 ∷ outside ∷ [])
        ∷ (pos 2 6
            ∷ pos 2 5
            ∷ pos 2 4
            ∷ pos 2 3
            ∷ pos 2 2
            ∷ pos 3 2
            ∷ pos 4 2
            ∷ pos 5 2
            ∷ pos 6 2
            ∷ outside
            ∷ [])
        ∷ (outside ∷ [])
        ∷ (pos 2 6 ∷ pos 2 5 ∷ pos 2 4 ∷ pos 1 4 ∷ pos 0 4 ∷ outside ∷ [])
        ∷ [])
    ∷ ((pos 0 2 ∷ pos 1 2 ∷ pos 2 2 ∷ pos 2 1 ∷ pos 2 0 ∷ outside ∷ [])
        ∷ (pos 0 2 ∷ pos 1 2 ∷ pos 2 2 ∷ pos 3 2 ∷ pos 4 2 ∷ pos 5 2 ∷ pos 6 2 ∷ outside ∷ [])
        ∷ (pos 0 2
            ∷ pos 1 2
            ∷ pos 2 2
            ∷ pos 3 2
            ∷ pos 4 2
            ∷ pos 4 3
            ∷ pos 4 4
            ∷ pos 4 5
            ∷ pos 4 6
            ∷ outside
            ∷ [])
        ∷ (outside ∷ [])
        ∷ [])
    ∷ []

unfoldable pub vehicle_path : ℕ → ℕ → ℕ → Position
vehicle_path start dest step = get_or (get_or (get_or paths start []) dest []) step (pos 0 0)

abbrev pub is_position_outside : Position → Bool
is_position_outside p = (p.row == minus_one) || (p.col == minus_one)

abbrev at : Position → ℕ → ℕ → Bool
at p r c = (p.row == r) && (p.col == c)

-- `vi->position` is `p`.
unfoldable pub vehicle_after_crossroad : Position → Bool
vehicle_after_crossroad p =
    at p 2 2
    || at p 2 3
    || at p 2 4
    || at p 3 2
    || at p 3 4
    || at p 4 2
    || at p 4 3
    || at p 4 4
    || at p 2 0
    || at p 2 1
    || at p 5 2
    || at p 6 2
    || at p 4 5
    || at p 4 6
    || at p 0 4
    || at p 1 4

unfoldable pub vehicle_before_crossroad : Position → Bool
vehicle_before_crossroad p =
    at p 4 0 || at p 4 1 || at p 5 4 || at p 6 4 || at p 2 5 || at p 2 6 || at p 0 2 || at p 1 2

unfoldable pub vehicle_at_crossroad_enterance : Position → Bool
vehicle_at_crossroad_enterance p = at p 4 1 || at p 5 4 || at p 2 5 || at p 1 2

unfoldable pub vehicle_at_crossroad_exit : Position → Bool
vehicle_at_crossroad_exit p = at p 2 1 || at p 5 2 || at p 4 5 || at p 1 4
