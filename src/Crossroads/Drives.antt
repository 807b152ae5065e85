-- ===== src/Crossroads/Drives.antt =====
-- Runs from the initial state, with the lock operations, the positions and the paths.
use cau_assignments.Base.{
  ℕ, zero, suc, ◌≡◌, refl, Bool, true, false, not, ◌&&◌, none, some, ◌==◌, ltb, subst, sym, arith,
  List, [], ◌∷◌, get_elem?,
}
use cau_assignments.Crossroads.Routes.{route_length, differ, route_length_first}
use cau_assignments.Crossroads.Vehicle.{ready, running, moved, finished, Vehicle, World, goes}
use cau_assignments.Crossroads.Runs.{Event, run, Drive, ready_vehicle, no_vehicle, initial}
use cau_assignments.Crossroads.Valid.{IsVehicle, IsValid, Good, owns, on_map, is_placing, placed}
use cau_assignments.Crossroads.Safe.{run-Fine}

-- Start and destination are two of the four roads.
abbrev pub drives_ok : List Drive → Bool
drives_ok [] = true
drives_ok (d ∷ ds) = ltb d.from 4 && ltb d.to 4 && not (d.from == d.to) && drives_ok ds

initial-IsVehicle :
    (ds : List Drive) (i : ℕ)
    → drives_ok ds ≡ true
    → IsVehicle (elim (get_elem? ds i) [ none ↦ no_vehicle | some d ↦ ready_vehicle d ])
initial-IsVehicle [] i ok = record {
  origin_bound = ground arith;
  dest_bound = ground arith;
  apart = refl;
  step_bound = ground (arith, route_length_first);
  state_ok = ground (arith, route_length_first);
  phase_ok = refl;
}
initial-IsVehicle (d ∷ ds) zero ok = record {
  origin_bound = ground arith;
  dest_bound = ground arith;
  apart = ground arith;
  step_bound = omega arith;
  state_ok = refl;
  phase_ok = refl;
}
initial-IsVehicle (d ∷ ds) (suc i) ok = initial-IsVehicle ds i (ground arith)

initial_free :
    (ds : List Drive) (i r c : ℕ)
    → false ≡ owns (elim (get_elem? ds i) [ none ↦ no_vehicle | some d ↦ ready_vehicle d ]) r c
initial_free [] i r c = refl
initial_free (d ∷ ds) zero r c = refl
initial_free (d ∷ ds) (suc i) r c = initial_free ds i r c

initial-IsValid : (ds : List Drive) → drives_ok ds ≡ true → IsValid (initial ds)
unfolding initial
initial-IsValid ds ok = record {
  each = λ i. initial-IsVehicle ds i ok;
  owner = λ i r c. initial_free ds i r c;
}

reached-IsValid :
    (ds : List Drive) (es : List Event) (w : World)
    → drives_ok ds ≡ true
    → run es (initial ds) ≡ goes w
    → IsValid w
reached-IsValid ds es w ok it =
    let (w', e, v) = run-Fine es (initial ds) (initial-IsValid ds ok) in
    subst Good it (subst Good (sym e) v)

-- For vehicles between different roads, and whatever the order of the steps, two vehicles that are
-- on the map stand on different positions, if neither of them has just given up the lock of its position and
-- is about to write its new one. A vehicle is in between these under its own lock.
pub run-no_collision :
    (ds : List Drive) (es : List Event) (w : World) (i j : ℕ)
    → drives_ok ds ≡ true
    → run es (initial ds) ≡ goes w
    → (i == j) ≡ false
    → on_map (w.vehicle i) ≡ true
    → on_map (w.vehicle j) ≡ true
    → is_placing (w.vehicle i).phase ≡ false
    → is_placing (w.vehicle j).phase ≡ false
    → differ (w.vehicle i).position (w.vehicle j).position ≡ true
run-no_collision ds es w i j ok it apart here there still still' =
    let v = reached-IsValid ds es w ok it in
    let p = (w.vehicle i).position in
    let first = v.owner i p.row p.col in let second = v.owner j p.row p.col in ground arith

-- Before the first step, right before the next step, or at the end of the path.
abbrev pub on_path : Vehicle → Bool
on_path x = elim x.state [
  | ready ↦ x.step == 0
  | running ↦ placed x
  | moved ↦ placed x
  | finished ↦ x.step == route_length x.origin x.dest
]

-- For vehicles between different roads, and whatever the order of the steps, a vehicle that is ready
-- has made no step, one on the map stands on the position of its last step, and one that has
-- finished has made all the steps of its path.
pub run-on_path :
    (ds : List Drive) (es : List Event) (w : World) (i : ℕ)
    → drives_ok ds ≡ true
    → run es (initial ds) ≡ goes w
    → on_path (w.vehicle i) ≡ true
run-on_path ds es w i ok it =
    let v = reached-IsValid ds es w ok it in let st = (v.each i).state_ok in ground arith
