-- ===== src/Examples/Town.antt =====
-- A town with a depot and a shop, its van and its one order.
use osrm_microservice.Prelude.{
  ◌≡◌, lookup, true, refl, ◌∷◌, List, [], Option, some, none, false, String, ℤ, pos, ◌+ℤ◌, ◌-ℤ◌,
  ◌*ℤ◌, div_ℤ, max_ℤ, member, amount, total, insert, ok,
}
use osrm_microservice.Model.Window.{TimeWindow, hard, contains}
use osrm_microservice.Model.Stop.{Location, StopSpec}
use osrm_microservice.Model.Order.{Order, job, sla}
use osrm_microservice.Model.Vehicle.{Vehicle, ends_at, is_electric}
use osrm_microservice.Model.Problem.{Problem, vehicle, order, location}
use osrm_microservice.Model.Plan.{Step, StepType, waiting}
use osrm_microservice.Evaluator.Timeline.{
  build_timeline, maybe_charge, serve_all, serve, served, reading, stop_of, service_start, drained,
  end_step,
}
use osrm_microservice.Evaluator.Load.{initial_load, serve_load, dimensions, to_deliver}
use osrm_microservice.Model.Service.{service_time, stop_service, stop_at, handled_quantity}
use osrm_microservice.Model.Travel.{travel_between, scaled, profile_for_arc}
use osrm_microservice.Model.Matrix.{duration, distance, cell}
use osrm_microservice.Evaluator.Metrics.{
  route_metrics, add_pair, add_pairs, soft_penalties, penalties, early_cost, late_cost, windows_of,
}
use osrm_microservice.Evaluator.Legal.{route_is_legal, fits, in_hard_window}
use osrm_microservice.Evaluator.Score.{
  Evaluation, default_weights, evaluate, fleet_prices_itself, score_route, score_routes,
  vehicle_cost, operating_cost, penalty_of,
}

abbrev pub window : ℤ → ℤ → TimeWindow
window start end = record {
  start = start;
  end = end;
  hardness = hard;
  earliness_cost_per_sec = pos 0;
  lateness_cost_per_sec = pos 0;
}

abbrev pub place : String → ℤ → Location
place id index = record {
  id = id;
  matrix_index = index;
  dwell_overhead = pos 60;
  dock_capacity = none;
  inventory = none;
  access_classes = [];
  max_vehicle_kg = none;
}

abbrev pub drop : StopSpec
drop = record {
  location_id = "shop";
  time_windows = window (pos 30000) (pos 36000) ∷ [];
  service_fixed = pos 120;
  service_per_unit = pos 30;
  service_per_unit_dimension = none;
}

abbrev pub parcel : Order
parcel = record {
  id = "parcel";
  kind = job;
  quantities = ("boxes", pos 4) ∷ [];
  pickup = none;
  delivery = some drop;
  priority_tier = pos 0;
  prize = pos 0;
  release_time = pos 0;
  required_skills = [];
  max_ride_time = none;
  priority_source = sla;
  order_class = none;
  incompatible_with = [];
}

abbrev pub van : Vehicle
van = record {
  id = "van";
  capacities = ("boxes", pos 10) ∷ [];
  shift = window (pos 28800) (pos 61200);
  start_location_id = "depot";
  end_location_id = none;
  max_duration = none;
  max_distance = none;
  skills = [];
  fixed_cost = pos 0;
  cost_per_metre = pos 0;
  cost_per_second = pos 0;
  overtime_cost_per_second = pos 0;
  cost_per_order = pos 0;
  profile = "car";
  service_factor_ppt = pos 1000;
  reload_locations = [];
  max_reloads = pos 0;
  reload_duration = pos 0;
  battery_wh = none;
  consumption_wh_per_km = pos 0;
  charger_locations = [];
  charging_curve = none;
  initial_soc_ppt = pos 1000;
  access_class = none;
  gross_weight_kg = none;
  open_route = false;
  hos_rules = none;
  initial_state = none;
}

abbrev pub town : Problem
town = record {
  id = "town";
  locations = place "depot" (pos 0) ∷ place "shop" (pos 1) ∷ [];
  orders = parcel ∷ [];
  vehicles = van ∷ [];
  matrix = record {
    version = "v1";
    durations = (pos 0 ∷ pos 900 ∷ []) ∷ (pos 1000 ∷ pos 0 ∷ []) ∷ [];
    distances = (pos 0 ∷ pos 8000 ∷ []) ∷ (pos 8200 ∷ pos 0 ∷ []) ∷ [];
    degraded = none;
  };
  horizon = none;
  locks = [];
  synchronisations = [];
  speed_profile = none;
  speed_profiles = none;
}

abbrev pub step_at : StepType → String → ℤ → ℤ → ℤ → Option String → ℤ → Step
step_at type id arrival start departure o boxes = record {
  type = type;
  location_id = id;
  arrival = arrival;
  start_service = start;
  departure = departure;
  order_id = o;
  load_after = ("boxes", boxes) ∷ [];
  rule_ref = none;
  placement = none;
  soc_after_ppt = none;
}

-- The van waits at the shop for its window to open.
abbrev pub day : List Step
day =
    step_at StepType.start "depot" (pos 28800) (pos 28800) (pos 28800) none (pos 4)
    ∷ step_at StepType.delivery "shop" (pos 29700) (pos 30000) (pos 30300) (some "parcel") (pos 0)
    ∷ step_at StepType.end "depot" (pos 31300) (pos 31300) (pos 31300) none (pos 0)
    ∷ []

pub day_built : build_timeline town "van" ("parcel" ∷ []) none [] ≡ ok day
unfolding build_timeline vehicle order location initial_load serve_all serve served reading stop_of
    service_start drained end_step ends_at is_electric serve_load dimensions to_deliver service_time
    stop_service stop_at handled_quantity travel_between scaled profile_for_arc duration distance
    cell ◌+ℤ◌ ◌-ℤ◌ ◌*ℤ◌ div_ℤ max_ℤ maybe_charge member amount total insert
day_built = refl

pub town_legal : route_is_legal town "van" ("parcel" ∷ []) ≡ ok true
unfolding route_is_legal fits in_hard_window windows_of contains build_timeline vehicle order
    location initial_load serve_all serve served reading stop_of service_start drained end_step
    ends_at is_electric serve_load dimensions to_deliver service_time stop_service stop_at
    handled_quantity travel_between scaled profile_for_arc duration distance cell ◌+ℤ◌ ◌-ℤ◌ ◌*ℤ◌
    div_ℤ max_ℤ maybe_charge member amount total insert
town_legal = refl

abbrev pub town_score : Evaluation
town_score = record {
  total = pos 16200;
  totals = record {
    distance = pos 16200;
    driving_seconds = pos 1900;
    waiting_seconds = pos 300;
    service_seconds = pos 300;
    earliness_penalty = pos 0;
    lateness_penalty = pos 0;
  };
  vehicles = pos 0;
  unassigned_penalty = pos 0;
  timelines = ("van", day) ∷ [];
}

pub town_scored : evaluate town (("van", "parcel" ∷ []) ∷ []) default_weights [] ≡ ok town_score
unfolding evaluate fleet_prices_itself score_route score_routes vehicle_cost operating_cost
    penalty_of lookup route_metrics add_pair add_pairs soft_penalties penalties early_cost late_cost
    windows_of waiting build_timeline vehicle order location initial_load serve_all serve served
    reading stop_of service_start drained end_step ends_at is_electric serve_load dimensions
    to_deliver service_time stop_service stop_at handled_quantity travel_between scaled
    profile_for_arc duration distance cell ◌+ℤ◌ ◌-ℤ◌ ◌*ℤ◌ div_ℤ max_ℤ maybe_charge member amount
    total insert
town_scored = refl
