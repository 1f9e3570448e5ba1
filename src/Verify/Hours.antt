-- ===== src/Verify/Hours.antt =====
-- `_check_hours_of_service` of vrp/verify/verifier.py (INV-7): the driver state rebuilt from the
-- stamps of a timeline.
use osrm_microservice.Prelude.{
  not, Option, none, some, List, [], ◌∷◌, ◌++◌, if◌then◌else◌, String, ltb, ℤ, pos, ◌-ℤ◌, ltb_ℤ,
  eqb_ℤ, Result, ok, err, ◌>>=◌,
}
use osrm_microservice.Hos.Rules.{
  HoursOfServiceRules, DriverState, Activity, init_state, advance, can_drive, rules_for,
}
use osrm_microservice.Model.Stop.{is_given}
use osrm_microservice.Model.Vehicle.{Vehicle}
use osrm_microservice.Model.Problem.{Problem, vehicle}
use osrm_microservice.Model.Plan.{Step, Route, is_break, waiting}
use osrm_microservice.Verify.Findings.{Violation, inv_7, fails_if, on_vehicle}

-- The loop goes on with a state, or returns with a violation.
pub data Worked : Type 0 where
  goes_on : DriverState → Worked
  stops : Worked

module _ (rules : HoursOfServiceRules) where
  -- The drive to the step.
  unfoldable pub drive_to : DriverState → ℤ → Result Worked
  drive_to s driving =
      if ltb_ℤ driving (pos 0)
      then ok stops
      else if eqb_ℤ driving (pos 0)
      then ok (goes_on s)
      else if not (can_drive rules s driving)
      then ok stops
      else do s' ← advance s Activity.drive driving; ok (goes_on s')

  -- `if current.waiting: ...`
  unfoldable pub wait_for : DriverState → ℤ → Result DriverState
  wait_for s seconds = if eqb_ℤ seconds (pos 0) then ok s else advance s Activity.wait seconds

  -- What is done at the step.
  unfoldable pub work_at : DriverState → Step → Result Worked
  unfolding wait_for
  work_at s current =
      if is_break current.type
      then (if ltb_ℤ (current.departure -ℤ current.arrival) (pos rules.break_duration)
          then ok stops
          else do
            s' ← advance s Activity.break (current.departure -ℤ current.arrival)
            ok (goes_on s'))
      else do
        s' ← wait_for s (waiting current)
        s'' ← advance s' Activity.work (current.departure -ℤ current.start_service)
        ok (goes_on s'')

  abbrev pub then_work : Step → Worked → Result Worked
  then_work current stops = ok stops
  then_work current (goes_on s) = work_at s current

  unfoldable pub work_pair : DriverState → Step → Step → Result Worked
  unfolding drive_to work_at
  work_pair s previous current = do
    driven ← drive_to s (current.arrival -ℤ previous.departure)
    then_work current driven

  unfoldable pub work_on : DriverState → Step → List Step → Result Worked
  unfolding work_pair
  work_on s previous [] = ok (goes_on s)
  work_on s previous (current ∷ later) = do
    worked ← work_pair s previous current
    elim worked [ stops ↦ ok stops | goes_on s' ↦ work_on s' current later ]

  -- The limits of the day.
  abbrev pub day_violations : String → Worked → List Violation
  day_violations i stops = on_vehicle inv_7 i ∷ []
  day_violations i (goes_on s) =
      fails_if (ltb rules.max_drive s.drive_used) (on_vehicle inv_7 i)
      ++ fails_if (ltb rules.max_duty s.duty_used) (on_vehicle inv_7 i)

  unfoldable pub work_steps : DriverState → List Step → Result Worked
  unfolding work_on
  work_steps s [] = ok (goes_on s)
  work_steps s (first ∷ later) = work_on s first later

-- `rules_for` raises for an unknown rule set, which is itself a violation.
unfoldable pub hours_under :
    String → Vehicle → List Step → Result HoursOfServiceRules → Result (List Violation)
unfolding work_steps
hours_under i v steps (err e) = ok (on_vehicle inv_7 i ∷ [])
hours_under i v steps (ok rules) = do
  worked ← work_steps rules (init_state v.initial_state) steps
  ok (day_violations rules i worked)

abbrev rule_set : Option String → Option String
rule_set none = none
rule_set (some name) = if is_given name then some name else none

unfoldable pub check_hours_of_service : Problem → Route → Result (List Violation)
unfolding hours_under
check_hours_of_service p r = do
  v ← vehicle p r.vehicle_id
  elim (rule_set v.hos_rules) [
    | none ↦ ok []
    | some name ↦ hours_under r.vehicle_id v r.steps (rules_for name)
  ]
