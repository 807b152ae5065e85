-- ===== src/Crossroads/Safe.antt =====
-- One event, and a run of events, keep the invariant.
use cau_assignments.Base.{
  ℕ, ◌≡◌, refl, Bool, true, false, inl, inr, Bool-cases, if◌then◌else◌, subst, sym, arith, List, [],
  ◌∷◌,
}
use cau_assignments.Crossroads.Map.{Position, minus_one, vehicle_after_crossroad}
use cau_assignments.Crossroads.Vehicle.{
  State, running, moved, finished, Phase, top, start, gate, want, have, leaving, placing, returning,
  asleep, done, has_own_lock, World, Outcome, goes, blocked, panic, set_vehicle, advance, wake,
  release_after, release_before, make_not_movable, wait_map, try_start, pass_gate, take_lock,
  decide_move, leave_position, update_position, sleep_again,
}
use cau_assignments.Crossroads.Runs.{
  Event, advances, holds_back, frees_after, frees_before, happen, run,
}
use cau_assignments.Crossroads.Valid.{IsValid, Good, update-IsValid, on_map}
use cau_assignments.Crossroads.Start.{try_start-Good}
use cau_assignments.Crossroads.Lock.{wait_map-Good, pass_gate-Good, take_lock-Good}
use cau_assignments.Crossroads.Move.{
  decide_move-Good, leave_position-Good, update_position-Good, sleep_again-Good,
}

is_moved : State → Bool
is_moved moved = true
is_moved _ = false

is_finished : State → Bool
is_finished finished = true
is_finished _ = false

after-outside : (p : Position) → p.row ≡ minus_one → vehicle_after_crossroad p ≡ false
unfolding vehicle_after_crossroad
after-outside p e = ground arith

module _ (i : ℕ) (w : World) (v : IsValid w) where
  make_not_movable-IsValid : IsValid (make_not_movable i w)
  unfolding make_not_movable
  make_not_movable-IsValid =
      let vx = v.each i in
      update-IsValid i _ w _ _ v
        (record {
          origin_bound = vx.origin_bound;
          dest_bound = vx.dest_bound;
          apart = vx.apart;
          step_bound = vx.step_bound;
          state_ok = vx.state_ok;
          phase_ok = vx.phase_ok;
        })
        (v.owner i) (λ k r c ne. refl)

  -- The map lets a vehicle on the map run on.
  running-IsValid :
      on_map (w.vehicle i) ≡ true
      → IsValid (
          set_vehicle i
            (record (w.vehicle i) {
              state = running;
              movable = true;
              phase = wake (w.vehicle i).phase;
            })
            w)
  running-IsValid here =
      let vx = v.each i in
      let st = vx.state_ok in
      let ph = vx.phase_ok in
      update-IsValid i _ w _ _ v
        (record {
          origin_bound = vx.origin_bound;
          dest_bound = vx.dest_bound;
          apart = vx.apart;
          step_bound = vx.step_bound;
          state_ok = ground arith;
          phase_ok = ground arith;
        })
        (λ r c. ground (arith, v.owner i r c)) (λ k r c ne. refl)

  movable-IsValid :
      is_finished (w.vehicle i).state ≡ false
      → IsValid (
          set_vehicle i
            (record (w.vehicle i) { movable = true; phase = wake (w.vehicle i).phase })
            w)
  unfolding is_finished
  movable-IsValid here =
      let vx = v.each i in
      let st = vx.state_ok in
      let ph = vx.phase_ok in
      update-IsValid i _ w _ _ v
        (record {
          origin_bound = vx.origin_bound;
          dest_bound = vx.dest_bound;
          apart = vx.apart;
          step_bound = vx.step_bound;
          state_ok = ground arith;
          phase_ok = ground arith;
        })
        (λ r c. ground (arith, v.owner i r c)) (λ k r c ne. refl)

  release_after-IsValid : IsValid (release_after i w)
  unfolding release_after
  release_after-IsValid =
      let x = w.vehicle i in
      let vx = v.each i in
      let st = vx.state_ok in
      elim (Bool-cases (vehicle_after_crossroad x.position)) [
        | inl e ↦
            let eq : release_after i w
                ≡ set_vehicle i (record x { state = running; movable = true; phase = wake x.phase })
                    w =
              ground arith in
            subst IsValid (sym eq) (running-IsValid (ground (arith, after-outside x.position)))
        | inr e ↦ let eq : release_after i w ≡ w = ground arith in subst IsValid (sym eq) v
      ]

  release_before-IsValid : IsValid (release_before i w)
  unfolding release_before is_finished is_moved
  release_before-IsValid =
      let x = w.vehicle i in
      elim (Bool-cases (is_finished x.state)) [
        | inl e ↦ let eq : release_before i w ≡ w = ground arith in subst IsValid (sym eq) v
        | inr e ↦ elim (Bool-cases (is_moved x.state)) [
          | inl m ↦
              let eq : release_before i w
                  ≡ set_vehicle i
                      (record x { state = running; movable = true; phase = wake x.phase }) w =
                ground arith in
              subst IsValid (sym eq) (running-IsValid (ground arith))
          | inr m ↦
              let eq : release_before i w
                  ≡ set_vehicle i (record x { movable = true; phase = wake x.phase }) w =
                ground arith in
              subst IsValid (sym eq) (movable-IsValid e)
        ]
      ]

  advance-Good : (p : Phase) → (w.vehicle i).phase ≡ p → Good (advance i w)
  unfolding advance
  advance-Good top e =
      let eq : advance i w ≡ wait_map i w = ground arith in
      subst Good (sym eq) (wait_map-Good i w v e)
  advance-Good start e =
      let eq : advance i w ≡ try_start i w = ground arith in
      subst Good (sym eq) (try_start-Good i w v e)
  advance-Good gate e =
      let eq : advance i w ≡ pass_gate i w = ground arith in
      subst Good (sym eq) (pass_gate-Good i w v e)
  advance-Good want e =
      let eq : advance i w ≡ take_lock i w = ground arith in
      subst Good (sym eq) (take_lock-Good i w v e)
  advance-Good have e =
      let eq : advance i w ≡ decide_move i w = ground arith in
      subst Good (sym eq) (decide_move-Good i w v e)
  advance-Good leaving e =
      let eq : advance i w ≡ leave_position i w = ground arith in
      subst Good (sym eq) (leave_position-Good i w v e)
  advance-Good placing e =
      let eq : advance i w ≡ update_position i w = ground arith in
      subst Good (sym eq) (update_position-Good i w v e)
  advance-Good returning e =
      let eq : advance i w ≡ sleep_again i w = ground arith in
      subst Good (sym eq) (sleep_again-Good i w v e)
  advance-Good asleep e = let eq : advance i w ≡ blocked = ground arith in subst Good (sym eq) tt
  advance-Good done e = let eq : advance i w ≡ blocked = ground arith in subst Good (sym eq) tt

unless-Good : (b : Bool) (w : World) → IsValid w → Good (if b then blocked else goes w)
unless-Good true w v = tt
unless-Good false w v = v

happen-Good : (e : Event) (w : World) → IsValid w → Good (happen e w)
unfolding happen
happen-Good (advances i) w v = advance-Good i w v _ refl
happen-Good (holds_back i) w v =
    unless-Good (has_own_lock (w.vehicle i).phase) _ (make_not_movable-IsValid i w v)
happen-Good (frees_after i) w v =
    unless-Good (has_own_lock (w.vehicle i).phase) _ (release_after-IsValid i w v)
happen-Good (frees_before i) w v =
    unless-Good (has_own_lock (w.vehicle i).phase) _ (release_before-IsValid i w v)

-- The run ends in a valid world.
abbrev pub Fine : Outcome → Type 0
Fine o = (w : World) × (o ≡ goes w) × IsValid w

run-step :
    (e : Event) (es : List Event) (w : World)
    → Good (happen e w)
    → ((w' : World) → IsValid w' → Fine (run es w'))
    → IsValid w
    → Fine (run (e ∷ es) w)
unfolding run
run-step e es w good next v = go (happen e w) good
  where
    go :
        (o : Outcome)
        → Good o
        → Fine (elim o [ goes w' ↦ run es w' | blocked ↦ run es w | panic ↦ panic ])
    go (goes w') g = next w' g
    go blocked g = next w v
    go panic g = elim g [ ]

pub run-Fine : (es : List Event) (w : World) → IsValid w → Fine (run es w)
unfolding run
run-Fine [] w v = (w, refl, v)
run-Fine (e ∷ es) w v = run-step e es w (happen-Good e w v) (run-Fine es) v
