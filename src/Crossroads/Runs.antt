-- ===== src/Crossroads/Runs.antt =====
-- Interleavings of the steps of the vehicles and of the map, and the state they begin with (vehicle.c).
use cau_assignments.Base.{ℕ, true, none, some, List, [], ◌∷◌, get_elem?, if◌then◌else◌}
use cau_assignments.Crossroads.Map.{outside, vehicle_path}
use cau_assignments.Crossroads.Vehicle.{
  ready, finished, top, done, has_own_lock, Vehicle, World, Outcome, goes, blocked, panic, advance,
  make_not_movable, release_after, release_before,
}

pub data Event : Type 0 where
  advances : ℕ → Event
  holds_back : ℕ → Event
  frees_after : ℕ → Event
  frees_before : ℕ → Event

-- The thread of the map waits for the lock of the vehicle.
unfoldable pub happen : Event → World → Outcome
happen (advances i) w = advance i w
happen (holds_back i) w =
    if has_own_lock (w.vehicle i).phase then blocked else goes (make_not_movable i w)
happen (frees_after i) w =
    if has_own_lock (w.vehicle i).phase then blocked else goes (release_after i w)
happen (frees_before i) w =
    if has_own_lock (w.vehicle i).phase then blocked else goes (release_before i w)

-- An interleaving. A blocked thread waits for a later event.
unfoldable pub run : List Event → World → Outcome
run [] w = goes w
run (e ∷ es) w = elim (happen e w) [ goes w' ↦ run es w' | blocked ↦ run es w | panic ↦ panic ]

-- The start and the destination of a vehicle, as in the argument `aAC`, less `'A'`.
pub record Drive : Type 0 where
  pub from : ℕ
  pub to : ℕ

-- The state in front of the loop of `vehicle_loop`.
abbrev pub ready_vehicle : Drive → Vehicle
ready_vehicle d = record {
  origin = d.from;
  dest = d.to;
  step = 0;
  state = ready;
  movable = true;
  position = outside;
  position_next = vehicle_path d.from d.to 0;
  phase = top;
}

-- Numbers that no vehicle has stand for a vehicle that has left the map.
abbrev pub no_vehicle : Vehicle
no_vehicle = record (ready_vehicle (record { from = 0; to = 1 })) {
  step = 5;
  state = finished;
  phase = done;
}

-- All locks of the map are free, and the semaphore is 7.
unfoldable pub initial : List Drive → World
initial ds = record {
  vehicle = λ i. elim (get_elem? ds i) [ none ↦ no_vehicle | some d ↦ ready_vehicle d ];
  holder = λ r c. none;
  sema = 7;
}
