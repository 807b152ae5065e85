-- ===== src/Crossroads/Start.antt =====
-- The steps of `try_move` up to the lock of the next position keep the invariant.
use cau_assignments.Base.{
  ℕ, ◌≡◌, refl, Bool, true, false, ◌&&◌, none, inl, inr, Bool-cases, subst, sym, arith,
}
use cau_assignments.Crossroads.Map.{outside, is_position_outside}
use cau_assignments.Crossroads.Routes.{Route_lem, route_step}
use cau_assignments.Crossroads.Vehicle.{
  State, running, finished, start, gate, done, World, goes, next_position, try_start, set_holder,
  set_vehicle,
}
use cau_assignments.Crossroads.Valid.{IsValid, Good, update-IsValid}

is_running : State → Bool
is_running running = true
is_running _ = false

module _ (i : ℕ) (w : World) (v : IsValid w) where
  pub try_start-Good : (w.vehicle i).phase ≡ start → Good (try_start i w)
  unfolding try_start is_running
  try_start-Good at_start =
      let x = w.vehicle i in
      let vx = v.each i in
      let st = vx.state_ok in
      let hs = vx.origin_bound in
      let hd = vx.dest_bound in
      let ap = vx.apart in
      let bound = vx.step_bound in
      let r = Route_lem x.origin x.dest hs hd in
      let rs = r.starts in
      let re = r.ends in
      elim (Bool-cases (is_running x.state && is_position_outside (next_position x))) [
        | inl e ↦
            let held = v.owner i x.position.row x.position.col in
            let eq : try_start i w
                ≡ goes (
                    set_vehicle i
                      (record x {
                        position_next = next_position x;
                        position = outside;
                        state = finished;
                        phase = done;
                      })
                      (set_holder x.position none w)) =
              ground arith in
            subst Good (sym eq) (
              update-IsValid i _ w _ _ v
                (record {
                  origin_bound = hs;
                  dest_bound = hd;
                  apart = ap;
                  step_bound = bound;
                  state_ok = ground (arith, route_step x.origin x.dest x.step hs hd);
                  phase_ok = ground arith;
                })
                (λ r c. ground (arith, v.owner i r c)) (λ k r c ne. ground (arith, v.owner i r c)))
        | inr e ↦
            let eq : try_start i w
                ≡ goes
                    (set_vehicle i (record x { position_next = next_position x; phase = gate }) w) =
              ground arith in
            subst Good (sym eq) (
              update-IsValid i _ w _ _ v
                (record {
                  origin_bound = hs;
                  dest_bound = hd;
                  apart = ap;
                  step_bound = bound;
                  state_ok = ground arith;
                  phase_ok = ground (arith, route_step x.origin x.dest x.step);
                })
                (λ r c. ground (arith, v.owner i r c)) (λ k r c ne. refl))
      ]
