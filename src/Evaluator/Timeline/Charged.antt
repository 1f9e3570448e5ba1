-- ===== src/Evaluator/Timeline/Charged.antt =====
-- `_charge_step` of vrp/evaluator.py: the step before a charge and the charge.
use osrm_microservice.Prelude.{
  arith, ◌≡◌, refl, subst, Option, none, some, [], ℤ, pos, ◌+ℤ◌, max_ℤ, Result, ok, value_error,
  or_raise, ok-injective, >>=-eq-ok, ◌>>=◌,
}
use osrm_microservice.Battery.{charge_seconds, ChargingCurve}
use osrm_microservice.Model.Stop.{Location}
use osrm_microservice.Model.Vehicle.{Vehicle}
use osrm_microservice.Model.Matrix.{distance}
use osrm_microservice.Model.Problem.{Problem, location, position}
use osrm_microservice.Model.Plan.{Step, StepType}
use osrm_microservice.Model.Travel.{travel_between}
use osrm_microservice.Evaluator.Timeline.{Progress, ChargeStop, charge_rounds, charge_step, drained}
use osrm_microservice.Evaluator.Timeline.Joined.{Joined, Stands, idle, found_again, no_promise}

module _ (p : Problem) where
  -- The chain of `_charge_step`, cut at each of its reads.
  module _ (v : Vehicle) (stop : ChargeStop) (s : Progress) where
    abbrev pub plugged_in : Location → ℤ → ℤ → Step × Progress
    plugged_in l taken plugged = (
      record {
        type = StepType.charge;
        location_id = l.id;
        arrival = s.clock +ℤ taken;
        start_service = s.clock +ℤ taken;
        departure = s.clock +ℤ taken +ℤ plugged;
        order_id = none;
        load_after = s.on_board;
        rule_ref = none;
        placement = none;
        soc_after_ppt = some stop.to_soc_ppt;
      },
      record {
        clock = s.clock +ℤ taken +ℤ plugged;
        at = position l;
        soc = some stop.to_soc_ppt;
        on_board = s.on_board;
      },
    )

    abbrev with_plug : Location → ℤ → ℤ → Result (Step × Progress)
    with_plug l taken plugged = ok (plugged_in l taken plugged)

    abbrev with_curve : ℤ → Location → ℤ → ℤ → ChargingCurve → Result (Step × Progress)
    with_curve battery l taken on_arrival curve =
        charge_seconds (charge_rounds stop.to_soc_ppt) battery curve (max_ℤ on_arrival (pos 0))
          stop.to_soc_ppt
        >>= with_plug l taken

    abbrev with_charge : ℤ → Location → ℤ → ℤ → Result (Step × Progress)
    with_charge battery l taken on_arrival =
        or_raise v.charging_curve value_error >>= with_curve battery l taken on_arrival

    abbrev with_left : ℤ → Location → ℤ → Option ℤ → Result (Step × Progress)
    with_left battery l taken left = or_raise left value_error >>= with_charge battery l taken

    abbrev with_metres : ℤ → Location → ℤ → ℤ → Result (Step × Progress)
    with_metres battery l taken metres = drained v s.soc metres >>= with_left battery l taken

    abbrev with_taken : ℤ → Location → ℤ → Result (Step × Progress)
    with_taken battery l taken = distance p.matrix s.at (position l) >>= with_metres battery l taken

    abbrev with_charger : ℤ → Location → Result (Step × Progress)
    with_charger battery l = travel_between p s.at (position l) s.clock >>= with_taken battery l

    abbrev with_battery : ℤ → Result (Step × Progress)
    with_battery battery = location p stop.location_id >>= with_charger battery

    pub charge_step-found :
        (x : Step × Progress)
        → charge_step p v stop s ≡ ok x
        → (l : Location) × (taken metres plugged : ℤ) × (location p stop.location_id ≡ ok l)
          × (travel_between p s.at (position l) s.clock ≡ ok taken)
          × (distance p.matrix s.at (position l) ≡ ok metres)
          × (plugged_in l taken plugged ≡ x)
    unfolding charge_step
    charge_step-found x h =
        let (battery, e₀, h₀) = >>=-eq-ok (or_raise v.battery_wh value_error) with_battery h in
        let (l, e₁, h₁) = >>=-eq-ok (location p stop.location_id) (with_charger battery) h₀ in
        let (taken, e₂, h₂) =
          >>=-eq-ok (travel_between p s.at (position l) s.clock) (with_taken battery l) h₁ in
        let (metres, e₃, h₃) =
          >>=-eq-ok (distance p.matrix s.at (position l)) (with_metres battery l taken) h₂ in
        let (left, e₄, h₄) = >>=-eq-ok (drained v s.soc metres) (with_left battery l taken) h₃ in
        let (on_arrival, e₅, h₅) =
          >>=-eq-ok (or_raise left value_error) (with_charge battery l taken) h₄ in
        let (curve, e₆, h₆) =
          >>=-eq-ok (or_raise v.charging_curve value_error) (with_curve battery l taken on_arrival)
            h₅ in
        let (plugged, e₇, h₇) =
          >>=-eq-ok
            (charge_seconds (charge_rounds stop.to_soc_ppt) battery curve (max_ℤ on_arrival (pos 0))
              stop.to_soc_ppt)
            (with_plug l taken) h₆ in
        (l, taken, metres, plugged, e₁, e₂, e₃, ok-injective h₇)

    pub charge-Joined :
        (a : Step) (x : Step × Progress)
        → charge_step p v stop s ≡ ok x
        → Stands p v a s
        → Joined p v a x.0 × Stands p v x.0 x.1
    charge-Joined a x h st =
        let (l, taken, metres, plugged, e₁, e₂, e₃, same) = charge_step-found x h in
        subst (λ (y : Step × Progress). Joined p v a y.0 × Stands p v y.0 y.1) same
          (
            record {
              origin = st.place;
              destination = l;
              metres = metres;
              taken = taken;
              windows = [];
              from = st.found;
              to = found_again p v stop.location_id l e₁;
              measured = rw st.at e₃;
              timed = rw (st.at, st.leaves) e₂;
              promised = no_promise p v _ refl;
              arrives = rw st.leaves refl;
              moving = refl;
              serves = idle refl (omega arith);
            },
            record {
              place = l;
              found = found_again p v stop.location_id l e₁;
              at = refl;
              leaves = refl;
            },
          )
