-- ===== src/Examples/Plans.antt =====
-- Plans for the town, judged by the verifier.
use osrm_microservice.Prelude.{
  arith, ◌≡◌, refl, true, false, some, none, List, [], ◌∷◌, ◌++◌, All, String, member, is_subset,
  insert, lookup, all_distinct, ℤ, pos, ◌+ℤ◌, ◌-ℤ◌, ◌*ℤ◌, div_ℤ, max_ℤ, min_ℤ, ceil_div_ℤ, ◌≤ℤ◌, ok,
}
use osrm_microservice.Battery.{charge_seconds, next_ceiling, slice_seconds, power_at, full_ppt}
use osrm_microservice.Model.Stop.{Location}
use osrm_microservice.Model.Order.{shipment}
use osrm_microservice.Model.Vehicle.{Vehicle}
use osrm_microservice.Model.Problem.{Problem, vehicle, order, location}
use osrm_microservice.Model.Plan.{Step, StepType, Route, Solution}
use osrm_microservice.Evaluator.Timeline.{build_timeline}
use osrm_microservice.Evaluator.Timeline.Carried.{AllSound, CarriesWell, timeline-CarriesWell}
use osrm_microservice.Evaluator.Score.{default_weights, breakdown}
use osrm_microservice.Verify.Findings.{inv_6, fails_if, on_vehicle}
use osrm_microservice.Verify.Route.{above, last_step, metres_of, check_route}
use osrm_microservice.Verify.Route.Accepts.{check_route-accepts}
use osrm_microservice.Verify.Coverage.{
  check_coverage, served_orders, count, order_coverage, unknown_orders, shipment_pairing,
}
use osrm_microservice.Verify.Coverage.Once.{IsOnce, IsPaired, check_coverage-IsOnce}
use osrm_microservice.Verify.Compatibility.{
  check_compatibility, check_aboard, step_clashes, take_aboard, clashes, bars, meets,
}
use osrm_microservice.Verify.Compatibility.Pairwise.{
  Visits, visits, Suits, Pairwise, check_compatibility-Pairwise,
}
use osrm_microservice.Verify.Depots.{
  check_docks, check_location_docks, occupancy, occupy, is_crowded, at_bay,
}
use osrm_microservice.Verify.Depots.Docks.{vehicles_at, check_docks-every_instant}
use osrm_microservice.Verify.Battery.{charged_to, charge_up}
use osrm_microservice.Verify.Battery.Reached.{IsPaid, IsMost, charged_to-IsMost}
use osrm_microservice.Verify.Objective.{check_objective}
use osrm_microservice.Verify.Objective.Agrees.{evaluate-accepted}
use osrm_microservice.Examples.Town.{
  town, place, day, day_built, town_legal, town_score, town_scored, step_at,
}
use osrm_microservice.Examples.Charging.{tapering}

town_sound : AllSound town.orders
unfolding all_distinct member
town_sound = (record { distinct = refl; not_negative = (omega arith, tt) }, tt)

timeline-CarriesWell_example : All CarriesWell day
timeline-CarriesWell_example =
    timeline-CarriesWell town town_sound "van" ("parcel" ∷ []) none [] day day_built

check_route-accepts_example :
    (v : Vehicle) × (first : Step) × (later : List Step) × (metres : ℤ) × (vehicle town "van"
      ≡ ok v)
    × (build_timeline town "van" ("parcel" ∷ []) none [] ≡ ok (first ∷ later))
    × (metres_of town (first ∷ later) ≡ ok metres)
    × (check_route town (record { vehicle_id = "van"; steps = first ∷ later })
        ≡ ok (
            fails_if
              (above v.max_duration ((last_step first later).arrival -ℤ first.departure))
              (on_vehicle inv_6 "van")
            ++ fails_if (above v.max_distance metres) (on_vehicle inv_6 "van")))
check_route-accepts_example = check_route-accepts town "van" ("parcel" ∷ []) town_sound town_legal

abbrev pub plan : Solution
plan = record {
  problem_id = "town";
  routes = record { vehicle_id = "van"; steps = day } ∷ [];
  unassigned = [];
  objective_breakdown = breakdown town_score;
  status = "FEASIBLE";
  degraded = none;
}

evaluate-accepted_example : check_objective town plan ≡ ok []
evaluate-accepted_example =
    evaluate-accepted town (("van", "parcel" ∷ []) ∷ []) default_weights [] town_score plan
      town_scored refl refl

plan_covers : check_coverage town plan ≡ []
unfolding check_coverage served_orders order_coverage unknown_orders shipment_pairing count member
plan_covers = refl

check_coverage-IsOnce_example :
    All (IsOnce [] (served_orders plan)) town.orders
    × All (λ i. member i ("parcel" ∷ []) ≡ true) (served_orders plan)
    × All (λ o. o.kind ≡ shipment → member o.id [] ≡ false → IsPaired plan o) town.orders
check_coverage-IsOnce_example = check_coverage-IsOnce town plan plan_covers

abbrev van_day : Route
van_day = record { vehicle_id = "van"; steps = day }

plan_compatible : check_compatibility town van_day ≡ ok []
unfolding check_compatibility check_aboard step_clashes take_aboard clashes bars meets is_subset
    member vehicle order location
plan_compatible = refl

check_compatibility-Pairwise_example :
    (v : Vehicle) × (vs : Visits) × (vehicle town "van" ≡ ok v)
    × (visits town day ≡ ok vs)
    × All (Suits v) vs
    × Pairwise vs
check_compatibility-Pairwise_example = check_compatibility-Pairwise town van_day plan_compatible

-- A depot with one bay, at which two vans load one after the other.
abbrev one_bay : Location
one_bay = record (place "depot" (pos 0)) { dock_capacity = some (pos 1) }

abbrev harbour : Problem
harbour = record town { locations = one_bay ∷ place "shop" (pos 1) ∷ [] }

abbrev loading : String → ℤ → ℤ → Route
loading v from to = record {
  vehicle_id = v;
  steps = step_at StepType.start "depot" from from to none (pos 0) ∷ [];
}

abbrev queue : Solution
queue = record plan {
  routes = loading "van" (pos 0) (pos 600) ∷ loading "bus" (pos 600) (pos 900) ∷ [];
}

bay_found : location harbour "depot" ≡ ok one_bay
unfolding location
bay_found = refl

queue_docks : check_docks harbour queue ≡ ok []
unfolding check_docks check_location_docks occupancy occupy is_crowded at_bay lookup insert location
queue_docks = refl

check_docks-every_instant_example : pos (vehicles_at "depot" (pos 750) queue.routes) ≤ℤ pos 1
check_docks-every_instant_example =
    check_docks-every_instant harbour "depot" one_bay (pos 1) queue (pos 750) bay_found refl
      (omega arith) queue_docks

-- Ten seconds at the plug.
abbrev top_up : Step
top_up = step_at StepType.charge "depot" (pos 0) (pos 0) (pos 10) none (pos 0)

top_up_reaches : charged_to (pos 50000) tapering (pos 997) top_up ≡ ok (pos 998)
unfolding charged_to charge_up charge_seconds max_ℤ min_ℤ next_ceiling ◌+ℤ◌ slice_seconds ceil_div_ℤ
    ◌-ℤ◌ div_ℤ ◌*ℤ◌ power_at
top_up_reaches = refl

charged_to-IsMost_example :
    (pos 997 ≤ℤ pos 998)
    × (pos 998 ≤ℤ pos full_ppt)
    × IsPaid (pos 50000) tapering (pos 997) (pos 10 -ℤ pos 0) (pos 998)
    × IsMost (pos 50000) tapering (pos 997) (pos 10 -ℤ pos 0) (pos 998)
charged_to-IsMost_example =
    charged_to-IsMost (pos 50000) tapering (pos 997) (pos 998) top_up (omega arith) top_up_reaches
