-- ===== src/Crossroads/Move.antt =====
-- The move to the next position, or giving its lock back, keeps the invariant.
use cau_assignments.Base.{
  ℕ, ◌+◌, ◌<◌, ◌≡◌, refl, Bool, true, false, none, inl, inr, Bool-cases, subst, sym, arith, ◌∙◌,
  ◌&&◌,
}
use cau_assignments.Crossroads.Map.{vehicle_at_crossroad_enterance, vehicle_at_crossroad_exit}
use cau_assignments.Crossroads.Routes.{route_length, route_step}
use cau_assignments.Crossroads.Vehicle.{
  State, ready, moved, Phase, top, have, leaving, placing, returning, asleep, Vehicle, World, goes,
  next_position, set_holder, set_vehicle, decide_move, leave_position, update_position, sleep_again,
}
use cau_assignments.Crossroads.Valid.{IsVehicle, IsValid, Good, owns, is_leaving, update-IsValid}

is_ready : State → Bool
is_ready ready = true
is_ready _ = false

-- The phases in which the thread is on its way to the next position.
is_moving : Phase → Bool
is_moving have = true
is_moving leaving = true
is_moving placing = true
is_moving returning = true
is_moving asleep = true
is_moving _ = false

-- The vehicle after a move.
abbrev arrived : Vehicle → Vehicle
arrived x = record x { position = next_position x; state = moved; step = x.step + 1; phase = top }

module _ (i : ℕ) (w : World) (v : IsValid w) (moving : is_moving (w.vehicle i).phase ≡ true) where
  short : (w.vehicle i).step < route_length (w.vehicle i).origin (w.vehicle i).dest
  unfolding is_moving
  short = let ph = (v.each i).phase_ok in ground arith

  -- Another phase of the move.
  phase-IsVehicle :
      (p : Phase)
      → is_moving p ≡ true
      → (is_ready (w.vehicle i).state && is_leaving p) ≡ false
      → IsVehicle (record (w.vehicle i) { phase = p })
  unfolding is_moving is_ready
  phase-IsVehicle p fits early =
      let vx = v.each i in
      let st = vx.state_ok in
      let ph = vx.phase_ok in
      record {
        origin_bound = vx.origin_bound;
        dest_bound = vx.dest_bound;
        apart = vx.apart;
        step_bound = vx.step_bound;
        state_ok = ground arith;
        phase_ok = ground arith;
      }

  arrived-IsVehicle : IsVehicle (arrived (w.vehicle i))
  arrived-IsVehicle =
      let x = w.vehicle i in
      let vx = v.each i in
      record {
        origin_bound = vx.origin_bound;
        dest_bound = vx.dest_bound;
        apart = vx.apart;
        step_bound = omega (arith, short);
        state_ok = ground arith;
        phase_ok = refl;
      }

-- A step to another phase that changes no lock of the map.
same_locks-IsValid :
    (i : ℕ) (w : World) (p : Phase) (s : ℕ)
    → IsValid w
    → IsVehicle (record (w.vehicle i) { phase = p })
    → ((r c : ℕ) → owns (w.vehicle i) r c ≡ owns (record (w.vehicle i) { phase = p }) r c)
    → IsValid (set_vehicle i (record (w.vehicle i) { phase = p }) (record w { sema = s }))
same_locks-IsValid i w p s v vx same =
    update-IsValid i _ w _ _ v vx (λ r c. v.owner i r c ∙ same r c) (λ k r c ne. refl)

module _ (i : ℕ) (w : World) (v : IsValid w) (at_have : (w.vehicle i).phase ≡ have) where
  moves : (w.vehicle i).movable ≡ true → Good (decide_move i w)
  unfolding decide_move is_ready is_moving
  moves may =
      let x = w.vehicle i in
      let st = (v.each i).state_ok in
      let moving : is_moving x.phase ≡ true = ground arith in
      elim (Bool-cases (is_ready x.state)) [
        | inl e ↦
            let eq : decide_move i w ≡ goes (set_vehicle i (record x { phase = placing }) w) =
              ground arith in
            subst Good (sym eq) (
              same_locks-IsValid i w placing w.sema v
                (phase-IsVehicle i w v moving placing refl (ground arith)) (λ r c. ground arith))
        | inr e ↦ elim (Bool-cases (vehicle_at_crossroad_exit x.position)) [
          | inl b ↦
              let eq : decide_move i w
                  ≡ goes (
                      set_vehicle i (record x { phase = leaving })
                        (record w { sema = w.sema + 1 })) =
                ground arith in
              subst Good (sym eq) (
                same_locks-IsValid i w leaving _ v
                  (phase-IsVehicle i w v moving leaving refl (ground arith)) (λ r c. ground arith))
          | inr b ↦
              let eq : decide_move i w ≡ goes (set_vehicle i (record x { phase = leaving }) w) =
                ground arith in
              subst Good (sym eq) (
                same_locks-IsValid i w leaving w.sema v
                  (phase-IsVehicle i w v moving leaving refl (ground arith)) (λ r c. ground arith))
        ]
      ]

  gives_back : (w.vehicle i).movable ≡ false → Good (decide_move i w)
  unfolding decide_move is_moving
  gives_back may =
      let x = w.vehicle i in
      let n = next_position x in
      let vx = v.each i in
      let st = vx.state_ok in
      let moving : is_moving x.phase ≡ true = ground arith in
      let rs =
        route_step x.origin x.dest x.step vx.origin_bound vx.dest_bound (short i w v moving) in
      let held = v.owner i n.row n.col in
      let eq : decide_move i w
          ≡ goes (set_vehicle i (record x { phase = returning }) (set_holder n none w)) =
        ground arith in
      subst Good (sym eq) (
        update-IsValid i _ w _ _ v (phase-IsVehicle i w v moving returning refl (ground arith))
          (λ r c. ground (arith, v.owner i r c)) (λ k r c ne. ground (arith, v.owner i r c)))

  pub decide_move-Good : Good (decide_move i w)
  decide_move-Good = elim (Bool-cases (w.vehicle i).movable) [
    | inl e ↦ moves e
    | inr e ↦ gives_back e
  ]

module _ (i : ℕ) (w : World) (v : IsValid w) where
  pub leave_position-Good : (w.vehicle i).phase ≡ leaving → Good (leave_position i w)
  unfolding leave_position is_moving is_ready
  leave_position-Good at_leaving =
      let x = w.vehicle i in
      let vx = v.each i in
      let st = vx.state_ok in
      let moving : is_moving x.phase ≡ true = ground arith in
      let rs =
        route_step x.origin x.dest x.step vx.origin_bound vx.dest_bound (short i w v moving) in
      let held = v.owner i x.position.row x.position.col in
      let eq : leave_position i w
          ≡ goes (set_vehicle i (record x { phase = placing }) (set_holder x.position none w)) =
        ground arith in
      subst Good (sym eq) (
        update-IsValid i _ w _ _ v (phase-IsVehicle i w v moving placing refl (ground arith))
          (λ r c. ground (arith, v.owner i r c)) (λ k r c ne. ground (arith, v.owner i r c)))

  pub update_position-Good : (w.vehicle i).phase ≡ placing → Good (update_position i w)
  unfolding update_position is_moving
  update_position-Good at_placing =
      let moving : is_moving (w.vehicle i).phase ≡ true = ground arith in
      update-IsValid i _ w _ _ v (arrived-IsVehicle i w v moving)
        (λ r c. ground (arith, v.owner i r c)) (λ k r c ne. refl)

  pub sleep_again-Good : (w.vehicle i).phase ≡ returning → Good (sleep_again i w)
  unfolding sleep_again is_moving is_ready
  sleep_again-Good at_returning =
      let x = w.vehicle i in
      let moving : is_moving x.phase ≡ true = ground arith in
      let vx = phase-IsVehicle i w v moving asleep refl (ground arith) in
      elim (Bool-cases (vehicle_at_crossroad_enterance x.position)) [
        | inl b ↦
            let eq : sleep_again i w
                ≡ goes
                    (set_vehicle i (record x { phase = asleep }) (record w { sema = w.sema + 1 })) =
              ground arith in
            subst Good (sym eq) (same_locks-IsValid i w asleep _ v vx (λ r c. ground arith))
        | inr b ↦
            let eq : sleep_again i w ≡ goes (set_vehicle i (record x { phase = asleep }) w) =
              ground arith in
            subst Good (sym eq) (same_locks-IsValid i w asleep w.sema v vx (λ r c. ground arith))
      ]
