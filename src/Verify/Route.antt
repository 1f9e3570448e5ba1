-- ===== src/Verify/Route.antt =====
-- `_check_route` of vrp/verify/verifier.py: a timeline against the clock, the matrix, the capacities
-- and the limits of its vehicle (INV-3 to INV-6).
pub mod Clock
pub mod Accepts
use osrm_microservice.Prelude.{
  Bool, false, ◌&&◌, ◌||◌, not, Option, none, some, List, [], ◌∷◌, ◌++◌, if◌then◌else◌, any, keep,
  String, lookup, ℤ, pos, ◌+ℤ◌, ◌-ℤ◌, ltb_ℤ, eqb_ℤ, Result, ok, value_error, or_raise, ◌>>=◌,
}
use osrm_microservice.Model.Window.{TimeWindow, contains, hard_windows}
use osrm_microservice.Model.Stop.{Quantities, StopSpec}
use osrm_microservice.Model.Order.{Order, is_some, is_empty}
use osrm_microservice.Model.Vehicle.{Vehicle}
use osrm_microservice.Model.Problem.{Problem, location, order, vehicle}
use osrm_microservice.Model.Plan.{Step, StepType, Route, is_break, is_delivery}
use osrm_microservice.Model.Travel.{travel_between}
use osrm_microservice.Model.Service.{service_time}
use osrm_microservice.Verify.Findings.{
  Violation, inv_3, inv_4, inv_5, inv_6, fails_if, on_step, on_vehicle, gather, each, arc_of,
  arc_metres,
}

-- `order.delivery if step.type == "DELIVERY" else order.pickup`
abbrev pub stop_judged : Order → StepType → Option StopSpec
stop_judged o type = if is_delivery type then o.delivery else o.pickup

abbrev pub windows_if : Option StopSpec → List TimeWindow
windows_if none = []
windows_if (some s) = s.time_windows

-- `_windows_for`
unfoldable pub windows_for : Problem → Step → Result (List TimeWindow)
windows_for p step = elim step.order_id [
  | none ↦ ok []
  | some i ↦ do o ← order p i; ok (windows_if (stop_judged o step.type))
]

unfoldable pub service_if : Problem → Step → Vehicle → Order → Option StopSpec → Result ℤ
service_if p step v o none = ok (pos 0)
service_if p step v o (some s) = do
  l ← location p step.location_id
  or_raise (service_time o v l) value_error

-- `_service_of`
unfoldable pub service_of : Problem → Step → Vehicle → Result ℤ
unfolding service_if
service_of p step v = elim step.order_id [
  | none ↦ ok (pos 0)
  | some i ↦ do o ← order p i; service_if p step v o (stop_judged o step.type)
]

-- INV-3: arrival, service and hard windows.
unfoldable pub clock_violations : String → Step → ℤ → List TimeWindow → List Violation
clock_violations i step service ws =
    fails_if (ltb_ℤ step.start_service step.arrival) (on_step inv_3 i step)
    ++ fails_if
        (is_some step.order_id && not (eqb_ℤ step.departure (step.start_service +ℤ service)))
        (on_step inv_3 i step)
    ++ fails_if
        (not (is_empty (hard_windows ws))
          && not (any (λ w. contains w step.start_service) (hard_windows ws)))
        (on_step inv_3 i step)

abbrev pub above : Option ℤ → ℤ → Bool
above none amount = false
above (some limit) amount = ltb_ℤ limit amount

-- INV-5: every dimension of the load.
unfoldable pub load_violations : String → Vehicle → Step → Quantities → List Violation
load_violations i v step load =
    gather
      (λ e.
        fails_if (ltb_ℤ e.1 (pos 0)) (on_step inv_5 i step)
        ++ fails_if (above (lookup e.0 v.capacities) e.1) (on_step inv_5 i step))
      load

unfoldable pub check_at_step : Problem → String → Vehicle → Step → Result (List Violation)
unfolding service_of windows_for clock_violations load_violations
check_at_step p i v step = do
  service ← service_of p step v
  ws ← windows_for p step
  ok (clock_violations i step service ws ++ load_violations i v step step.load_after)

-- The variables of the loop over the legs: the stop before, and the breaks since it.
pub record Leg : Type 0 where
  pub previous : Option Step
  pub en_route_breaks : ℤ

unfoldable pub expected_arrival : Problem → Step → Step → ℤ → Result ℤ
unfolding arc_of
expected_arrival p previous current breaks = do
  (origin, destination) ← arc_of p previous current
  taken ← travel_between p origin destination previous.departure
  ok (previous.departure +ℤ taken +ℤ breaks)

unfoldable pub arrive : Problem → String → Step → Option Step → ℤ → Result (Leg × List Violation)
unfolding expected_arrival
arrive p i current none breaks =
    ok (record { previous = some current; en_route_breaks = breaks }, [])
arrive p i current (some previous) breaks = do
  expected ← expected_arrival p previous current breaks
  ok (
    record { previous = some current; en_route_breaks = pos 0 },
    fails_if (not (eqb_ℤ current.arrival expected)) (on_step inv_4 i current),
  )

-- One step; a break is added to the leg that it is taken on.
unfoldable pub leg_step : Problem → String → Step → Leg → Result (Leg × List Violation)
unfolding arrive
leg_step p i current s =
    if is_break current.type
    then ok (
      record s { en_route_breaks = s.en_route_breaks +ℤ (current.departure -ℤ current.arrival) },
      [],
    )
    else arrive p i current s.previous s.en_route_breaks

-- INV-4
unfoldable pub check_legs : Problem → String → List Step → Leg → Result (List Violation)
unfolding leg_step
check_legs p i [] s = ok []
check_legs p i (current ∷ later) s = do
  (s', found) ← leg_step p i current s
  more ← check_legs p i later s'
  ok (found ++ more)

-- `sum(... for a, b in pairwise(steps))`
unfoldable pub metres_from : Problem → Step → List Step → Result ℤ
unfolding arc_metres
metres_from p previous [] = ok (pos 0)
metres_from p previous (current ∷ later) = do
  metres ← arc_metres p previous current
  rest ← metres_from p current later
  ok (metres +ℤ rest)

unfoldable pub metres_of : Problem → List Step → Result ℤ
unfolding metres_from
metres_of p [] = ok (pos 0)
metres_of p (first ∷ later) = metres_from p first later

-- `steps[-1]` of a list that is not empty.
abbrev pub last_step : Step → List Step → Step
last_step first [] = first
last_step first (next ∷ later) = last_step next later

-- INV-6: duration, distance and shift.
unfoldable pub limit_violations : String → Vehicle → Step → Step → ℤ → List Violation
limit_violations i v first last metres =
    fails_if (above v.max_duration (last.arrival -ℤ first.departure)) (on_vehicle inv_6 i)
    ++ fails_if (above v.max_distance metres) (on_vehicle inv_6 i)
    ++ fails_if (ltb_ℤ first.departure v.shift.start || ltb_ℤ v.shift.end last.arrival)
        (on_vehicle inv_6 i)

unfoldable pub check_limits :
    Problem → String → Vehicle → Step → List Step → Result (List Violation)
unfolding metres_of limit_violations
check_limits p i v first later = do
  metres ← metres_of p (keep (λ s. not (is_break s.type)) (first ∷ later))
  ok (limit_violations i v first (last_step first later) metres)

-- `previous = None; en_route_breaks = 0`
abbrev pub no_leg : Leg
no_leg = record { previous = none; en_route_breaks = pos 0 }

unfoldable pub check_steps : Problem → String → Vehicle → List Step → Result (List Violation)
unfolding check_at_step check_legs check_limits
check_steps p i v [] = ok []
check_steps p i v (first ∷ later) = do
  at_steps ← each (check_at_step p i v) (first ∷ later)
  on_legs ← check_legs p i (first ∷ later) no_leg
  at_limits ← check_limits p i v first later
  ok (at_steps ++ on_legs ++ at_limits)

unfoldable pub check_route : Problem → Route → Result (List Violation)
unfolding check_steps
check_route p r = do v ← vehicle p r.vehicle_id; check_steps p r.vehicle_id v r.steps
