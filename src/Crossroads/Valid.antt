-- ===== src/Crossroads/Valid.antt =====
-- The invariant of the vehicles and the locks of the map.
use cau_assignments.Base.{
  ℕ, ◌-◌, ◌≤◌, ◌<◌, ◌≡◌, Bool, true, false, not, ◌&&◌, ◌||◌, Option, none, some, ◌==◌, ltb, inl,
  inr, Bool-cases, subst, sym, if◌then◌else◌, arith,
}
use cau_assignments.Crossroads.Map.{Position, minus_one, vehicle_path}
use cau_assignments.Crossroads.Routes.{route_length}
use cau_assignments.Crossroads.Vehicle.{
  ready, running, moved, finished, Phase, top, start, have, leaving, placing, done, Vehicle, World,
  Outcome, goes, blocked, panic, holds, next_position,
}

-- The vehicle stands on the map.
abbrev pub on_map : Vehicle → Bool
on_map x = elim x.state [ ready ↦ false | running ↦ true | moved ↦ true | finished ↦ false ]

abbrev pub stands : Position → ℕ → ℕ → Bool
stands p r c = (r == p.row) && (c == p.col)

-- The vehicle has the lock of the next position.
abbrev pub has_next : Phase → Bool
has_next have = true
has_next leaving = true
has_next placing = true
has_next _ = false

abbrev pub is_done : Phase → Bool
is_done done = true
is_done _ = false

abbrev pub is_early : Phase → Bool
is_early top = true
is_early start = true
is_early _ = false

abbrev pub is_leaving : Phase → Bool
is_leaving leaving = true
is_leaving _ = false

-- The vehicle has given up the lock of its position, and has not written the new position yet.
abbrev pub is_placing : Phase → Bool
is_placing placing = true
is_placing _ = false

-- The locks of a vehicle: that of its position, and that of the next one while it moves.
abbrev pub owns : Vehicle → ℕ → ℕ → Bool
owns x r c =
    (on_map x && not (is_placing x.phase) && stands x.position r c)
    || (has_next x.phase && stands (next_position x) r c)

-- The vehicle is on its path, one step behind the next position.
abbrev pub placed : Vehicle → Bool
placed x =
    ltb 0 x.step
    && stands x.position (vehicle_path x.origin x.dest (x.step - 1)).row
        (vehicle_path x.origin x.dest (x.step - 1)).col

abbrev pub is_top : Phase → Bool
is_top top = true
is_top _ = false

abbrev pub state_fits : Vehicle → Bool
state_fits x = elim x.state [
  | ready ↦
      (x.step == 0)
      && (x.position.row == minus_one)
      && not (is_done x.phase)
      && not (is_leaving x.phase)
  | running ↦ placed x && not (is_done x.phase)
  | moved ↦ placed x && is_top x.phase
  | finished ↦
      (x.position.row == minus_one) && is_done x.phase && (x.step == route_length x.origin x.dest)
]

abbrev pub phase_fits : Vehicle → Bool
phase_fits x = is_early x.phase || is_done x.phase || ltb x.step (route_length x.origin x.dest)

pub record IsVehicle (x : Vehicle) : Type 0 where
  pub origin_bound : x.origin < 4
  pub dest_bound : x.dest < 4
  pub apart : (x.origin == x.dest) ≡ false
  pub step_bound : x.step ≤ route_length x.origin x.dest
  pub state_ok : state_fits x ≡ true
  pub phase_ok : phase_fits x ≡ true

-- A lock of the map is held by the vehicle that owns it.
pub record IsValid (w : World) : Type 0 where
  pub each : (i : ℕ) → IsVehicle (w.vehicle i)
  pub owner : (i r c : ℕ) → holds w i r c ≡ owns (w.vehicle i) r c

-- The outcome is a valid state, or the thread has to wait; never a panic.
abbrev pub Good : Outcome → Type 0
Good (goes w) = IsValid w
Good blocked = Unit {0}
Good panic = ⊥

-- A vehicle that gets new variables, with new locks.
pub update-IsValid :
    (i : ℕ) (x : Vehicle) (w : World) (h : ℕ → ℕ → Option ℕ) (s : ℕ)
    → IsValid w
    → IsVehicle x
    → ((r c : ℕ) → elim (h r c) [ none ↦ false | some j ↦ j == i ] ≡ owns x r c)
    → ((k r c : ℕ)
        → (k == i) ≡ false
        → elim (h r c) [ none ↦ false | some j ↦ j == k ] ≡ holds w k r c)
    → IsValid (record { vehicle = λ j. if j == i then x else w.vehicle j; holder = h; sema = s })
update-IsValid i x w h s v vx own other = record {
  each = λ k. elim (Bool-cases (k == i)) [
    | inl e ↦ subst (λ b. IsVehicle (if b then x else w.vehicle k)) (sym e) vx
    | inr e ↦ subst (λ b. IsVehicle (if b then x else w.vehicle k)) (sym e) (v.each k)
  ];
  owner = λ k r c. elim (Bool-cases (k == i)) [
    | inl e ↦ ground (arith, own r c, other k r c, e)
    | inr e ↦ ground (arith, own r c, other k r c, e, v.owner k r c)
  ];
}
