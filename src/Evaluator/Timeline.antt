-- ===== src/Evaluator/Timeline.antt =====
-- `build_timeline` of vrp/evaluator.py with its helpers.
pub mod Chains
pub mod Joined
pub mod Charged
pub mod Chained
pub mod Carried
use osrm_microservice.Prelude.{
  ℕ, suc, ◌+◌, ◌==◌, Option, none, some, List, [], ◌∷◌, ◌++◌, if◌then◌else◌, String, ℤ, pos,
  pos_part, ◌+ℤ◌, ◌-ℤ◌, leb_ℤ, max_ℤ, Result, ok, err, value_error, not_implemented, given_or,
  or_raise, map_result, ◌>>=◌,
}
use osrm_microservice.Battery.{consumed_ppt, charge_seconds}
use osrm_microservice.Model.Window.{TimeWindow}
use osrm_microservice.Model.Stop.{Quantities, Location}
use osrm_microservice.Model.Order.{Order, is_some, is_shipment}
use osrm_microservice.Model.Vehicle.{Vehicle, is_electric, ends_at}
use osrm_microservice.Model.Matrix.{distance}
use osrm_microservice.Model.Problem.{Problem, location, order, vehicle, position}
use osrm_microservice.Model.Plan.{Step, StepType}
use osrm_microservice.Model.Travel.{travel_between}
use osrm_microservice.Model.Service.{delivery_or_pickup, service_time}
use osrm_microservice.Evaluator.Load.{initial_load, serve_load}

-- `ChargeStop` of vrp/battery.py.
pub record ChargeStop : Type 0 where
  pub location_id : String
  pub to_soc_ppt : ℤ

-- `_stop_of`: where the order is served, and its windows. A shipment is refused.
unfoldable pub stop_of : Order → Result (String × List TimeWindow)
stop_of o =
    if is_shipment o.kind
    then err not_implemented
    else do s ← or_raise (delivery_or_pickup o) value_error; ok (s.location_id, s.time_windows)

-- The first window that has not closed on arrival decides.
unfoldable pub service_start : ℤ → List TimeWindow → ℤ
service_start arrival [] = arrival
service_start arrival (w ∷ ws) =
    if leb_ℤ arrival w.end then max_ℤ arrival w.start else service_start arrival ws

unfoldable pub drained : Vehicle → Option ℤ → ℤ → Result (Option ℤ)
drained v none metres = ok none
drained v (some soc) metres = do
  battery ← or_raise v.battery_wh value_error
  used ← consumed_ppt battery v.consumption_wh_per_km metres
  ok (some (soc -ℤ used))

-- The variables of the loop.
pub record Progress : Type 0 where
  pub clock : ℤ
  pub at : ℕ
  pub soc : Option ℤ
  pub on_board : Quantities

-- The rounds that the charging loop is given: one above the target is enough.
abbrev pub charge_rounds : ℤ → ℕ
charge_rounds target = suc (pos_part target)

-- `_charge_step`
unfoldable pub charge_step : Problem → Vehicle → ChargeStop → Progress → Result (Step × Progress)
charge_step p v stop s = do
  battery ← or_raise v.battery_wh value_error
  charger ← location p stop.location_id
  taken ← travel_between p s.at (position charger) s.clock
  metres ← distance p.matrix s.at (position charger)
  left ← drained v s.soc metres
  on_arrival ← or_raise left value_error
  curve ← or_raise v.charging_curve value_error
  plugged ←
      charge_seconds (charge_rounds stop.to_soc_ppt) battery curve (max_ℤ on_arrival (pos 0))
        stop.to_soc_ppt
  let arrival = s.clock +ℤ taken
  ok (
    record {
      type = StepType.charge;
      location_id = charger.id;
      arrival = arrival;
      start_service = arrival;
      departure = arrival +ℤ plugged;
      order_id = none;
      load_after = s.on_board;
      rule_ref = none;
      placement = none;
      soc_after_ppt = some stop.to_soc_ppt;
    },
    record {
      clock = arrival +ℤ plugged;
      at = position charger;
      soc = some stop.to_soc_ppt;
      on_board = s.on_board;
    },
  )

abbrev pub charge_at : ℕ → List (ℕ × ChargeStop) → Option ChargeStop
charge_at i [] = none
charge_at i ((j, c) ∷ cs) = if j == i then some c else charge_at i cs

-- `if charges and index in charges: ...`
unfoldable pub maybe_charge :
    Problem → Vehicle → Option ChargeStop → Progress → Result (List Step × Progress)
maybe_charge p v none s = ok ([], s)
maybe_charge p v (some c) s = do (step, s') ← charge_step p v c s; ok (step ∷ [], s')

abbrev pub served_type : Order → StepType
served_type o = if is_some o.delivery then StepType.delivery else StepType.pickup

-- What the loop body reads before it moves on.
pub record Reading : Type 0 where
  pub place : Location
  pub windows : List TimeWindow
  pub service : ℤ
  pub taken : ℤ
  pub soc : Option ℤ

unfoldable pub reading : Problem → Vehicle → Order → Progress → Result Reading
unfolding stop_of
reading p v o s = do
  (location_id, windows) ← stop_of o
  l ← location p location_id
  service ← or_raise (service_time o v l) value_error
  taken ← travel_between p s.at (position l) s.clock
  metres ← distance p.matrix s.at (position l)
  soc ← drained v s.soc metres
  ok (record { place = l; windows = windows; service = service; taken = taken; soc = soc })

-- The step that is appended, and the variables after it.
unfoldable pub served : Order → Progress → Reading → Step × Progress
served o s r =
    let arrival = s.clock +ℤ r.taken in
    let begin = service_start arrival r.windows in
    let load = serve_load o s.on_board in
    (
      record {
        type = served_type o;
        location_id = r.place.id;
        arrival = arrival;
        start_service = begin;
        departure = begin +ℤ r.service;
        order_id = some o.id;
        load_after = load;
        rule_ref = none;
        placement = none;
        soc_after_ppt = r.soc;
      },
      record { clock = begin +ℤ r.service; at = position r.place; soc = r.soc; on_board = load },
    )

-- One order of the loop, after the charge that may stand before it.
unfoldable pub serve : Problem → Vehicle → Order → Progress → Result (Step × Progress)
serve p v o s = do r ← reading p v o s; ok (served o s r)

unfoldable pub serve_all :
    Problem
    → Vehicle
    → List (ℕ × ChargeStop)
    → ℕ
    → List Order
    → Progress
    → Result (List Step × Progress)
serve_all p v charges index [] s = ok ([], s)
serve_all p v charges index (o ∷ os) s = do
  (plug, s₁) ← maybe_charge p v (charge_at index charges) s
  (step, s₂) ← serve p v o s₁
  (steps, s₃) ← serve_all p v charges (index + 1) os s₂
  ok (plug ++ step ∷ steps, s₃)

abbrev pub start_step : String → Progress → Step
start_step location_id s = record {
  type = StepType.start;
  location_id = location_id;
  arrival = s.clock;
  start_service = s.clock;
  departure = s.clock;
  order_id = none;
  load_after = s.on_board;
  rule_ref = none;
  placement = none;
  soc_after_ppt = s.soc;
}

unfoldable pub end_step : Problem → Vehicle → Progress → Result Step
end_step p v s = do
  l ← location p (ends_at v)
  taken ← travel_between p s.at (position l) s.clock
  metres ← distance p.matrix s.at (position l)
  soc ← drained v s.soc metres
  let arrival = s.clock +ℤ taken
  ok (record {
    type = StepType.end;
    location_id = l.id;
    arrival = arrival;
    start_service = arrival;
    departure = arrival;
    order_id = none;
    load_after = s.on_board;
    rule_ref = none;
    placement = none;
    soc_after_ppt = soc;
  })

abbrev pub initial_soc : Vehicle → Option ℤ
initial_soc v = if is_electric v then some v.initial_soc_ppt else none

unfoldable pub build_timeline :
    Problem → String → List String → Option ℤ → List (ℕ × ChargeStop) → Result (List Step)
build_timeline p vehicle_id order_ids start_time charges = do
  v ← vehicle p vehicle_id
  os ← map_result (order p) order_ids
  l ← location p v.start_location_id
  let s : Progress = record {
    clock = given_or start_time v.shift.start;
    at = position l;
    soc = initial_soc v;
    on_board = initial_load os;
  }
  (steps, s') ← serve_all p v charges 0 os s
  last ← end_step p v s'
  ok (start_step l.id s ∷ steps ++ last ∷ [])
