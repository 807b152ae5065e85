-- ===== src/Tests/Roads.antt =====
-- Tests of the crossroads: two vehicles that drive onto the map.
use cau_assignments.Base.{ℕ, ◌≡◌, refl, true, List, [], ◌∷◌, arith}
use cau_assignments.Crossroads.Vehicle.{
  World, goes, advance, wait_map, try_start, pass_gate, take_lock, decide_move, leave_position,
  update_position, sleep_again, make_not_movable, release_before,
}
use cau_assignments.Crossroads.Runs.{
  Drive, Event, advances, holds_back, frees_before, initial, run, happen,
}
use cau_assignments.Crossroads.Map.{
  pos, vehicle_path, vehicle_at_crossroad_enterance, vehicle_at_crossroad_exit,
}
use cau_assignments.Crossroads.Routes.{differ, Drivable, vehicle_path_lem}
use cau_assignments.Crossroads.Drives.{on_path, run-no_collision, run-on_path}

abbrev drives : List Drive
drives = record { from = 0; to = 2 } ∷ record { from = 1; to = 3 } ∷ []

-- Vehicle 1 has to wait once; vehicle 0 makes two moves.
abbrev events : List Event
events =
    advances 0
    ∷ advances 1
    ∷ holds_back 1
    ∷ advances 0
    ∷ advances 1
    ∷ advances 0
    ∷ advances 1
    ∷ advances 0
    ∷ advances 1
    ∷ advances 0
    ∷ advances 1
    ∷ advances 0
    ∷ advances 1
    ∷ frees_before 1
    ∷ advances 1
    ∷ advances 1
    ∷ advances 1
    ∷ advances 1
    ∷ frees_before 0
    ∷ advances 0
    ∷ advances 0
    ∷ advances 0
    ∷ advances 0
    ∷ advances 0
    ∷ advances 0
    ∷ advances 0
    ∷ []

abbrev both : World
unfolding run
both = elim (run events (initial drives)) [ goes w ↦ w | _ ↦ initial drives ]

both_reached : run events (initial drives) ≡ goes both
unfolding run happen advance wait_map try_start pass_gate take_lock decide_move leave_position
    update_position sleep_again make_not_movable release_before vehicle_path initial
    vehicle_at_crossroad_enterance vehicle_at_crossroad_exit
both_reached = refl

-- Vehicle 0 stands on the second position of its path, and vehicle 1 on the first of its own.
two_on_the_map :
    ((both.vehicle 0).step ≡ 2)
    × ((both.vehicle 1).step ≡ 1)
    × ((both.vehicle 1).position ≡ pos 6 4)
unfolding run happen advance wait_map try_start pass_gate take_lock decide_move leave_position
    update_position sleep_again make_not_movable release_before vehicle_path initial
    vehicle_at_crossroad_enterance vehicle_at_crossroad_exit
two_on_the_map = (refl, refl, refl)

run-no_collision_example : differ (both.vehicle 0).position (both.vehicle 1).position ≡ true
unfolding run happen advance wait_map try_start pass_gate take_lock decide_move leave_position
    update_position sleep_again make_not_movable release_before vehicle_path initial
    vehicle_at_crossroad_enterance vehicle_at_crossroad_exit
run-no_collision_example =
    run-no_collision drives events both 0 1 refl both_reached refl refl refl refl refl

run-on_path_example : on_path (both.vehicle 0) ≡ true
run-on_path_example = run-on_path drives events both 0 refl both_reached

vehicle_path_lem_example : (n : ℕ) × Drivable 0 3 n
vehicle_path_lem_example = vehicle_path_lem 0 3 (omega arith) (omega arith) refl
