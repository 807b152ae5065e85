-- ===== src/Crossroads/Vehicle.antt =====
-- The threads of the vehicles (vehicle.c) and of the map (map.c), cut into steps. A step has at most one
-- operation on a lock of the map or on the semaphore of the inner crossroad; what it does to the
-- variables of a vehicle is done under the lock of that vehicle, which the phases `leaving`, `placing` and
-- `returning` keep from one step to the next. Any interleaving is a sequence of events.
use cau_assignments.Base.{
  ℕ, ◌+◌, ◌-◌, Bool, true, false, ◌&&◌, Option, none, some, ◌==◌, ltb, if◌then◌else◌,
}
use cau_assignments.Crossroads.Map.{
  Position, outside, vehicle_path, is_position_outside, vehicle_after_crossroad,
  vehicle_at_crossroad_enterance, vehicle_at_crossroad_exit,
}

pub data State : Type 0 where
  ready running moved finished : State

-- Where the thread of a vehicle stands: at the top of the loop of `vehicle_loop`, at the start of
-- `try_move`, in front of the semaphore, in front of the lock of the next position, behind that
-- lock; with its own lock too, before it gives up the lock of its position, before it writes its new
-- position, or behind giving the lock of the next position back; in `cond_wait` on `became_movable`, or at
-- the end.
pub data Phase : Type 0 where
  top start gate want have leaving placing returning asleep done : Phase

-- The thread has the lock of its vehicle.
abbrev pub has_own_lock : Phase → Bool
has_own_lock leaving = true
has_own_lock placing = true
has_own_lock returning = true
has_own_lock _ = false

-- `struct vehicle_info`, with the variables `start`, `dest` and `step` of `vehicle_loop`.
pub record Vehicle : Type 0 where
  pub origin : ℕ
  pub dest : ℕ
  pub step : ℕ
  pub state : State
  pub movable : Bool
  pub position : Position
  pub position_next : Position
  pub phase : Phase

-- All vehicles, the holder of each lock of the map, and `inner_crossroad_sema`.
pub record World : Type 0 where
  pub vehicle : ℕ → Vehicle
  pub holder : ℕ → ℕ → Option ℕ
  pub sema : ℕ

pub data Outcome : Type 0 where
  goes : World → Outcome
  blocked : Outcome
  panic : Outcome

abbrev pub set_vehicle : ℕ → Vehicle → World → World
set_vehicle i x w = record w { vehicle = λ j. if j == i then x else w.vehicle j }

abbrev pub set_holder : Position → Option ℕ → World → World
set_holder p o w = record w {
  holder = λ r c. if (r == p.row) && (c == p.col) then o else w.holder r c;
}

-- `lock_held_by_current_thread`
abbrev pub holds : World → ℕ → ℕ → ℕ → Bool
holds w i r c = elim (w.holder r c) [ none ↦ false | some j ↦ j == i ]

abbrev pub next_position : Vehicle → Position
next_position x = vehicle_path x.origin x.dest x.step

-- `while (vi->state == VEHICLE_STATUS_MOVED) cond_wait(map_drawn, vi->lock);`
unfoldable pub wait_map : ℕ → World → Outcome
wait_map i w =
    let x = w.vehicle i in
    elim x.state [ moved ↦ blocked | _ ↦ goes (set_vehicle i (record x { phase = start }) w) ]

-- The start of `try_move`. `lock_release` asserts that the thread holds the lock; the position is set to
-- the outside before that, so that the place is never free while the vehicle stands on it.
terminate : ℕ → World → Outcome
terminate i w =
    let x = w.vehicle i in
    if holds w i x.position.row x.position.col
    then goes (
        set_vehicle i
          (record x {
            position_next = next_position x;
            position = outside;
            state = finished;
            phase = done;
          })
          (set_holder x.position none w))
    else panic

unfoldable pub try_start : ℕ → World → Outcome
unfolding terminate
try_start i w =
    let x = w.vehicle i in
    let go_on =
      goes (set_vehicle i (record x { position_next = next_position x; phase = gate }) w) in
    elim x.state [
      | running ↦ if is_position_outside (next_position x) then terminate i w else go_on
      | _ ↦ go_on
    ]

-- `sema_down` at the entrance of the crossroad
unfoldable pub pass_gate : ℕ → World → Outcome
pass_gate i w =
    let x = w.vehicle i in
    let x' : Vehicle = record x { phase = want } in
    if vehicle_at_crossroad_enterance x.position
    then (if w.sema == 0 then blocked else goes (set_vehicle i x' (record w { sema = w.sema - 1 })))
    else goes (set_vehicle i x' w)

-- `lock_acquire(&vi->map_locks[pos_next.row][pos_next.col])`: an index out of the map and a lock that
-- the thread holds already count as a panic.
unfoldable pub take_lock : ℕ → World → Outcome
take_lock i w =
    let x = w.vehicle i in
    let n = next_position x in
    if ltb n.row 7 && ltb n.col 7
    then elim (w.holder n.row n.col) [
      | none ↦ goes (set_vehicle i (record x { phase = have }) (set_holder n (some i) w))
      | some j ↦ if j == i then panic else blocked
    ]
    else panic

-- Behind the lock, with the lock of the vehicle: if the map allows the move, `sema_up` at the exit of the
-- crossroad; else the lock of the next position is released. That the state is `running` in between
-- is seen by no other thread.
move_on : ℕ → World → Outcome
move_on i w =
    let x = w.vehicle i in
    let w' : World =
      if vehicle_at_crossroad_exit x.position then record w { sema = w.sema + 1 } else w in
    elim x.state [
      | ready ↦ goes (set_vehicle i (record x { phase = placing }) w)
      | _ ↦ goes (set_vehicle i (record x { phase = leaving }) w')
    ]

give_back : ℕ → World → Outcome
give_back i w =
    let x = w.vehicle i in
    let n = next_position x in
    if holds w i n.row n.col
    then goes (set_vehicle i (record x { phase = returning }) (set_holder n none w))
    else panic

unfoldable pub decide_move : ℕ → World → Outcome
unfolding move_on give_back
decide_move i w = if (w.vehicle i).movable then move_on i w else give_back i w

-- `lock_release(&vi->map_locks[pos_cur.row][pos_cur.col])`
unfoldable pub leave_position : ℕ → World → Outcome
leave_position i w =
    let x = w.vehicle i in
    if holds w i x.position.row x.position.col
    then goes (set_vehicle i (record x { phase = placing }) (set_holder x.position none w))
    else panic

-- The new position and state; `step++` is the caller's.
unfoldable pub update_position : ℕ → World → Outcome
update_position i w =
    let x = w.vehicle i in
    goes (
      set_vehicle i
        (record x { position = next_position x; state = moved; step = x.step + 1; phase = top }) w)

-- `sema_up` at the entrance of the crossroad, and `cond_wait`, which gives up the lock of the vehicle.
unfoldable pub sleep_again : ℕ → World → Outcome
sleep_again i w =
    let x = w.vehicle i in
    let w' : World =
      if vehicle_at_crossroad_enterance x.position then record w { sema = w.sema + 1 } else w in
    goes (set_vehicle i (record x { phase = asleep }) w')

-- One step of the thread of vehicle `i`.
unfoldable pub advance : ℕ → World → Outcome
advance i w = elim (w.vehicle i).phase [
  | top ↦ wait_map i w
  | start ↦ try_start i w
  | gate ↦ pass_gate i w
  | want ↦ take_lock i w
  | have ↦ decide_move i w
  | leaving ↦ leave_position i w
  | placing ↦ update_position i w
  | returning ↦ sleep_again i w
  | asleep ↦ blocked
  | done ↦ blocked
]

-- `cond_broadcast (vi->became_movable, vi->lock)`
abbrev pub wake : Phase → Phase
wake asleep = gate
wake p = p

-- The bodies of the loops of `vehicles_list_make_not_movable`,
-- `move_vehicles_after_crossroad_and_wait` and `move_vehicles_before_crossroad_and_wait`, on one
-- vehicle. The third tests the position before it takes the lock, so that the test may be out of
-- date: here its locked part may run for every vehicle. The waits of the map change no variable.
unfoldable pub make_not_movable : ℕ → World → World
make_not_movable i w = set_vehicle i (record (w.vehicle i) { movable = false }) w

unfoldable pub release_after : ℕ → World → World
release_after i w =
    let x = w.vehicle i in
    if vehicle_after_crossroad x.position
    then set_vehicle i (record x { state = running; movable = true; phase = wake x.phase }) w
    else w

unfoldable pub release_before : ℕ → World → World
release_before i w =
    let x = w.vehicle i in
    elim x.state [
      | ready ↦ set_vehicle i (record x { movable = true; phase = wake x.phase }) w
      | running ↦ set_vehicle i (record x { movable = true; phase = wake x.phase }) w
      | moved ↦ set_vehicle i (record x { state = running; movable = true; phase = wake x.phase }) w
      | finished ↦ w
    ]
