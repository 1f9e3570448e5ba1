-- ===== src/Verify/Battery.antt =====
-- `_check_battery` of vrp/verify/verifier.py (INV-16): the charge recomputed from the distances.
pub mod Reached
use osrm_microservice.Prelude.{
  ℕ, zero, suc, Bool, true, false, not, Option, none, some, List, [], ◌∷◌, if◌then◌else◌, String,
  member, ℤ, pos, ◌+ℤ◌, ◌-ℤ◌, ltb_ℤ, gap, Result, ok, value_error, or_raise, ◌>>=◌,
}
use osrm_microservice.Battery.{ChargingCurve, full_ppt, consumed_ppt, charge_seconds}
use osrm_microservice.Model.Vehicle.{Vehicle}
use osrm_microservice.Model.Problem.{Problem, vehicle}
use osrm_microservice.Model.Plan.{Step, Route, is_charge}
use osrm_microservice.Evaluator.Timeline.{charge_rounds}
use osrm_microservice.Verify.Findings.{Violation, inv_16, on_vehicle, arc_metres}

-- The `while reached < FULL_PPT` loop, one unit of fuel for a round.
unfoldable pub charge_up : ℕ → ℤ → ChargingCurve → ℤ → ℤ → ℤ → Result ℤ
charge_up zero wh curve arrived plugged reached = ok reached
charge_up (suc fuel) wh curve arrived plugged reached =
    if not (ltb_ℤ reached (pos full_ppt)) then ok reached else do
      seconds ←
          charge_seconds (charge_rounds (reached +ℤ pos 1)) wh curve arrived (reached +ℤ pos 1)
      if ltb_ℤ plugged seconds
          then ok reached
          else charge_up fuel wh curve arrived plugged (reached +ℤ pos 1)

-- `_charged_to`; a round for every part per thousand up to a full battery.
unfoldable pub charged_to : ℤ → ChargingCurve → ℤ → Step → Result ℤ
unfolding charge_up
charged_to wh curve arrived step =
    charge_up (gap arrived (pos full_ppt)) wh curve arrived (step.departure -ℤ step.start_service)
      arrived

-- The loop goes on with a charge, or returns with a violation.
pub data Driven : Type 0 where
  goes_on : ℤ → Driven
  stops : Driven

unfoldable pub plug_in : Vehicle → ℤ → ℤ → Step → Result Driven
unfolding charged_to
plug_in v wh soc current =
    if not (is_charge current.type)
    then ok (goes_on soc)
    else if not (member current.location_id v.charger_locations)
    then ok stops
    else do
      curve ← or_raise v.charging_curve value_error
      reached ← charged_to wh curve soc current
      ok (goes_on reached)

unfoldable pub drive_pair : Problem → Vehicle → ℤ → ℤ → Step → Step → Result Driven
unfolding plug_in
drive_pair p v wh soc previous current = do
  metres ← arc_metres p previous current
  used ← consumed_ppt wh v.consumption_wh_per_km metres
  if ltb_ℤ (soc -ℤ used) (pos 0) then ok stops else plug_in v wh (soc -ℤ used) current

unfoldable pub drive_on :
    Problem → String → Vehicle → ℤ → ℤ → Step → List Step → Result (List Violation)
unfolding drive_pair
drive_on p i v wh soc previous [] = ok []
drive_on p i v wh soc previous (current ∷ later) = do
  driven ← drive_pair p v wh soc previous current
  elim driven [
    | stops ↦ ok (on_vehicle inv_16 i ∷ [])
    | goes_on soc' ↦ drive_on p i v wh soc' current later
  ]

unfoldable pub battery_of :
    Problem → String → Vehicle → Option ℤ → List Step → Result (List Violation)
unfolding drive_on
battery_of p i v none steps = ok []
battery_of p i v (some wh) [] = ok []
battery_of p i v (some wh) (first ∷ later) = drive_on p i v wh v.initial_soc_ppt first later

unfoldable pub check_battery : Problem → Route → Result (List Violation)
unfolding battery_of
check_battery p r = do v ← vehicle p r.vehicle_id; battery_of p r.vehicle_id v v.battery_wh r.steps
