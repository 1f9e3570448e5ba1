-- ===== src/Hos/Schedule.antt =====
-- vrp/hos/schedule.py: a route's timeline with the breaks that the rules require.
pub mod Driving
pub mod Agreement
pub mod Road
pub mod Lawful
use osrm_microservice.Prelude.{
  ℕ, zero, suc, ◌+◌, ◌-◌, ◌*◌, min, ◌==◌, Bool, true, false, ◌&&◌, not, Option, none, some, List,
  [], ◌∷◌, ◌++◌, if◌then◌else◌, String, ℤ, pos, pos_part, ◌+ℤ◌, ◌-ℤ◌, ltb_ℤ, max_ℤ, Result, ok, err,
  value_error, out_of_fuel, key_error, given_or, or_raise, map_result, ◌>>=◌, ◌>>◌,
}
use osrm_microservice.Hos.Rules.{
  Activity, drive, work, break, wait, Break, DriverState, rested, HoursOfServiceRules, init_state,
  consume, advance, drive_until_break, required_break,
}
use osrm_microservice.Model.Window.{TimeWindow}
use osrm_microservice.Model.Stop.{Quantities, StopSpec}
use osrm_microservice.Model.Order.{Order, is_some}
use osrm_microservice.Model.Vehicle.{Vehicle, ends_at}
use osrm_microservice.Model.Matrix.{duration}
use osrm_microservice.Model.Problem.{Problem, location, order, vehicle, position}
use osrm_microservice.Model.Plan.{Step, StepType}
use osrm_microservice.Model.Service.{delivery_or_pickup, service_time}
use osrm_microservice.Evaluator.Load.{initial_load, serve_load}

-- The two texts that a violation may be.
pub data Violation : Type 0 where
  duty_exhausted : (name : String) (remaining : ℕ) (destination : String) → Violation
  past_shift_end : (clock : ℤ) (end : ℤ) → Violation

-- What a leg changes: the clock, the driver, the first violation, and the steps it appends.
pub record Leg : Type 0 where
  pub clock : ℤ
  pub driver : DriverState
  pub violation : Option Violation
  pub breaks : List Step

unfoldable pub break_step : Break → ℤ → String → Quantities → Step
break_step b clock destination on_board = record {
  type = StepType.break;
  location_id = destination;
  arrival = clock;
  start_service = clock;
  departure = clock +ℤ pos b.duration;
  order_id = none;
  load_after = on_board;
  rule_ref = some b.rule_ref;
  placement = some b.placement;
  soc_after_ppt = none;
}

-- The `while remaining > 0` loop while there is no violation, one unit of fuel for a round. Once
-- there is one, `_drive` returns before the loop does anything.
drive_loop : ℕ → HoursOfServiceRules → String → Quantities → ℕ → ℤ → DriverState → Option Leg
drive_loop zero r destination on_board remaining clock s = none
drive_loop (suc fuel) r destination on_board zero clock s =
    some (record { clock = clock; driver = s; violation = none; breaks = [] })
drive_loop (suc fuel) r destination on_board (suc n) clock s = elim (drive_until_break r s) [
  | zero ↦ elim (required_break r s) [
    | none ↦ some (record {
      clock = clock +ℤ pos (suc n);
      driver = s;
      violation = some (duty_exhausted r.name (suc n) destination);
      breaks = [];
    })
    | some b ↦
        elim (drive_loop fuel r destination on_board (suc n) (clock +ℤ pos b.duration)
          (consume s break b.duration)) [
            | none ↦ none
            | some leg ↦
                some (record leg { breaks = break_step b clock destination on_board ∷ leg.breaks })
          ]
  ]
  | suc k ↦
      let chunk = min (suc k) (suc n) in
      drive_loop fuel r destination on_board (suc n - chunk) (clock +ℤ pos chunk)
        (consume s drive chunk)
]

-- The rounds that a leg is given: a break and a stretch of driving for each second.
abbrev pub drive_rounds : ℕ → ℕ
drive_rounds travel = 2 * travel + 2

-- `_drive`
unfoldable pub drive_leg :
    Option HoursOfServiceRules
    → ℤ
    → String
    → Quantities
    → Option Violation
    → ℤ
    → DriverState
    → Result Leg
unfolding drive_loop break_step
drive_leg none travel destination on_board violation clock s =
    ok (record { clock = clock +ℤ travel; driver = s; violation = violation; breaks = [] })
drive_leg (some r) travel destination on_board (some v) clock s =
    ok (record {
      clock = clock +ℤ pos (pos_part travel);
      driver = s;
      violation = some v;
      breaks = [];
    })
drive_leg (some r) travel destination on_board none clock s =
    or_raise
      (drive_loop (drive_rounds (pos_part travel)) r destination on_board (pos_part travel) clock s)
      out_of_fuel

-- Only the first window is read.
abbrev pub first_window_start : ℤ → List TimeWindow → ℤ
first_window_start arrival [] = arrival
first_window_start arrival (w ∷ ws) = max_ℤ arrival w.start

-- What the rules make of waiting and of service; nothing without rules.
abbrev pub on_duty : Option HoursOfServiceRules → DriverState → Activity → ℤ → Result DriverState
on_duty none s activity seconds = ok s
on_duty (some r) s activity seconds = advance s activity seconds

unfoldable pub at_stop : Option HoursOfServiceRules → DriverState → ℤ → ℤ → ℤ → Result DriverState
at_stop rules s arrival start_service service = do
  waited ←
      if ltb_ℤ arrival start_service then on_duty rules s wait (start_service -ℤ arrival) else ok s
  on_duty rules waited work service

-- `index_of[location_id]`, where a missing key is a `KeyError`.
unfoldable pub index_of : Problem → String → Result ℕ
index_of p i = elim (location p i) [ ok l ↦ ok (position l) | err e ↦ err key_error ]

-- The variables of the loop over the orders.
pub record Shift : Type 0 where
  pub clock : ℤ
  pub driver : DriverState
  pub violation : Option Violation
  pub at : ℕ
  pub on_board : Quantities

unfoldable pub schedule_stop :
    Problem → Vehicle → Option HoursOfServiceRules → Order → Shift → Result (List Step × Shift)
schedule_stop p v rules o s = do
  stop ← or_raise (delivery_or_pickup o) value_error
  destination ← index_of p stop.location_id
  travel ← duration p.matrix s.at destination
  leg ← drive_leg rules travel stop.location_id s.on_board s.violation s.clock s.driver
  let start_service = first_window_start leg.clock stop.time_windows
  l ← location p stop.location_id
  service ← or_raise (service_time o v l) value_error
  driver ← at_stop rules leg.driver leg.clock start_service service
  let load = serve_load o s.on_board
  ok (
    leg.breaks
        ++ record {
          type = if is_some o.delivery then StepType.delivery else StepType.pickup;
          location_id = stop.location_id;
          arrival = leg.clock;
          start_service = start_service;
          departure = start_service +ℤ service;
          order_id = some o.id;
          load_after = load;
          rule_ref = none;
          placement = none;
          soc_after_ppt = none;
        }
          ∷ [],
    record {
      clock = start_service +ℤ service;
      driver = driver;
      violation = leg.violation;
      at = destination;
      on_board = load;
    },
  )

unfoldable pub schedule_stops :
    Problem → Vehicle → Option HoursOfServiceRules → List Order → Shift → Result (List Step × Shift)
schedule_stops p v rules [] s = ok ([], s)
schedule_stops p v rules (o ∷ os) s = do
  (steps, s₁) ← schedule_stop p v rules o s
  (later, s₂) ← schedule_stops p v rules os s₁
  ok (steps ++ later, s₂)

pub record ScheduledRoute : Type 0 where
  pub steps : List Step
  pub legal : Bool
  pub violation : Option Violation
  pub state : DriverState

abbrev pub plain_step : StepType → String → ℤ → Quantities → Step
plain_step type location_id clock on_board = record {
  type = type;
  location_id = location_id;
  arrival = clock;
  start_service = clock;
  departure = clock;
  order_id = none;
  load_after = on_board;
  rule_ref = none;
  placement = none;
  soc_after_ppt = none;
}

-- `if violation is None and clock > vehicle.shift.end: ...`
abbrev pub with_shift_end : Option Violation → ℤ → ℤ → Option Violation
with_shift_end (some v) clock end = some v
with_shift_end none clock end = if ltb_ℤ end clock then some (past_shift_end clock end) else none

-- The argument wins over the vehicle's own carry-over.
abbrev pub carry_over : Option DriverState → Vehicle → Option DriverState
carry_over none v = v.initial_state
carry_over (some s) v = some s

unfoldable pub schedule_route :
    Problem
    → String
    → List String
    → Option HoursOfServiceRules
    → Option DriverState
    → Option ℤ
    → Result ScheduledRoute
schedule_route p vehicle_id order_ids rules initial start_time = do
  v ← vehicle p vehicle_id
  os ← map_result (order p) order_ids
  let s₀ = init_state (carry_over initial v)
  let load = initial_load os
  let clock = given_or start_time v.shift.start
  start ← index_of p v.start_location_id
  (steps, s) ←
      schedule_stops p v rules os
        (record { clock = clock; driver = s₀; violation = none; at = start; on_board = load })
  end ← index_of p (ends_at v)
  travel ← duration p.matrix s.at end
  leg ← drive_leg rules travel (ends_at v) s.on_board s.violation s.clock s.driver
  let violation = with_shift_end leg.violation leg.clock v.shift.end
  ok (record {
    steps =
        plain_step StepType.start v.start_location_id clock load ∷ steps
        ++ (leg.breaks ++ plain_step StepType.end (ends_at v) leg.clock s.on_board ∷ []);
    legal = not (is_some violation);
    violation = violation;
    state = leg.driver;
  })
