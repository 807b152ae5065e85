-- ===== src/Crossroads/Lock.antt =====
-- The semaphore, the lock of the next position and the wait for the map keep the invariant.
use cau_assignments.Base.{
  ℕ, ◌-◌, ◌<◌, ◌≡◌, refl, Bool, true, false, Option, none, some, ◌==◌, inl, inr, Bool-cases, subst,
  sym, arith,
}
use cau_assignments.Crossroads.Map.{vehicle_at_crossroad_enterance}
use cau_assignments.Crossroads.Routes.{route_length, route_step}
use cau_assignments.Crossroads.Vehicle.{
  State, moved, Phase, top, start, gate, want, have, asleep, World, goes, blocked, next_position,
  set_holder, set_vehicle, pass_gate, take_lock, wait_map,
}
use cau_assignments.Crossroads.Valid.{IsValid, Good, update-IsValid, has_next}

is_moved : State → Bool
is_moved moved = true
is_moved _ = false

is_middle : Phase → Bool
is_middle gate = true
is_middle want = true
is_middle have = true
is_middle asleep = true
is_middle _ = false

is_free : Option ℕ → Bool
is_free none = true
is_free (some _) = false

module _ (i : ℕ) (w : World) (v : IsValid w) where
  pub wait_map-Good : (w.vehicle i).phase ≡ top → Good (wait_map i w)
  unfolding wait_map is_moved
  wait_map-Good at_top =
      let x = w.vehicle i in
      let vx = v.each i in
      let st = vx.state_ok in
      elim (Bool-cases (is_moved x.state)) [
        | inl e ↦ let eq : wait_map i w ≡ blocked = ground arith in subst Good (sym eq) tt
        | inr e ↦
            let eq : wait_map i w ≡ goes (set_vehicle i (record x { phase = start }) w) =
              ground arith in
            subst Good (sym eq) (
              update-IsValid i _ w _ _ v
                (record {
                  origin_bound = vx.origin_bound;
                  dest_bound = vx.dest_bound;
                  apart = vx.apart;
                  step_bound = vx.step_bound;
                  state_ok = ground arith;
                  phase_ok = refl;
                })
                (λ r c. ground (arith, v.owner i r c)) (λ k r c ne. refl))
      ]

  -- A step from one of the middle phases to another that changes no lock.
  middle-IsValid :
      (p : Phase) (s : ℕ)
      → is_middle (w.vehicle i).phase ≡ true
      → is_middle p ≡ true
      → (has_next p ≡ has_next (w.vehicle i).phase)
      → IsValid (set_vehicle i (record (w.vehicle i) { phase = p }) (record w { sema = s }))
  unfolding is_middle
  middle-IsValid p s old new same =
      let x = w.vehicle i in
      let vx = v.each i in
      let st = vx.state_ok in
      let ph = vx.phase_ok in
      update-IsValid i _ w _ _ v
        (record {
          origin_bound = vx.origin_bound;
          dest_bound = vx.dest_bound;
          apart = vx.apart;
          step_bound = vx.step_bound;
          state_ok = ground arith;
          phase_ok = ground arith;
        })
        (λ r c. ground (arith, v.owner i r c)) (λ k r c ne. refl)

  pub pass_gate-Good : (w.vehicle i).phase ≡ gate → Good (pass_gate i w)
  unfolding pass_gate is_middle
  pass_gate-Good at_gate =
      let x = w.vehicle i in
      elim (Bool-cases (vehicle_at_crossroad_enterance x.position)) [
        | inl e ↦ elim (Bool-cases (w.sema == 0)) [
          | inl z ↦ let eq : pass_gate i w ≡ blocked = ground arith in subst Good (sym eq) tt
          | inr z ↦
              let eq : pass_gate i w
                  ≡ goes
                      (set_vehicle i (record x { phase = want }) (record w { sema = w.sema - 1 })) =
                ground arith in
              subst Good (sym eq) (middle-IsValid want _ (ground arith) refl (ground arith))
        ]
        | inr e ↦
            let eq : pass_gate i w ≡ goes (set_vehicle i (record x { phase = want }) w) =
              ground arith in
            subst Good (sym eq) (middle-IsValid want _ (ground arith) refl (ground arith))
      ]

  pub take_lock-Good : (w.vehicle i).phase ≡ want → Good (take_lock i w)
  unfolding take_lock is_free
  take_lock-Good at_want =
      let x = w.vehicle i in
      let vx = v.each i in
      let st = vx.state_ok in
      let ph = vx.phase_ok in
      let n = next_position x in
      let short : x.step < route_length x.origin x.dest = ground arith in
      let rs = route_step x.origin x.dest x.step vx.origin_bound vx.dest_bound short in
      let mine = v.owner i n.row n.col in
      elim (Bool-cases (is_free (w.holder n.row n.col))) [
        | inl e ↦
            let eq : take_lock i w
                ≡ goes (set_vehicle i (record x { phase = have }) (set_holder n (some i) w)) =
              ground arith in
            subst Good (sym eq) (
              update-IsValid i _ w _ _ v
                (record {
                  origin_bound = vx.origin_bound;
                  dest_bound = vx.dest_bound;
                  apart = vx.apart;
                  step_bound = vx.step_bound;
                  state_ok = ground arith;
                  phase_ok = ground arith;
                })
                (λ r c. ground (arith, v.owner i r c)) (λ k r c ne. ground arith))
        | inr e ↦ let eq : take_lock i w ≡ blocked = ground arith in subst Good (sym eq) tt
      ]
