-- ===== src/Examples/Duty.antt =====
-- The town's van under the European rules.
use osrm_microservice.Prelude.{
  ◌≡◌, refl, All, true, none, some, List, [], ◌∷◌, ◌+ℤ◌, ◌-ℤ◌, ◌*ℤ◌, div_ℤ, max_ℤ, member, amount,
  total, insert, ok,
}
use osrm_microservice.Model.Window.{contains}
use osrm_microservice.Model.Vehicle.{Vehicle, ends_at, is_electric}
use osrm_microservice.Model.Problem.{Problem, vehicle, order, location}
use osrm_microservice.Model.Plan.{Step}
use osrm_microservice.Model.Service.{service_time, stop_service, stop_at, handled_quantity}
use osrm_microservice.Model.Travel.{travel_between, scaled, profile_for_arc}
use osrm_microservice.Model.Matrix.{duration, distance, cell}
use osrm_microservice.Hos.Rules.{init_state, consume, advance, drive_until_break, rules_for}
use osrm_microservice.Hos.Schedule.{
  drive_leg, at_stop, index_of, schedule_stop, schedule_stops, schedule_route,
}
use osrm_microservice.Hos.Schedule.Lawful.{EndsBy}
use osrm_microservice.Evaluator.Timeline.{
  build_timeline, maybe_charge, serve_all, serve, served, reading, stop_of, service_start, drained,
  end_step,
}
use osrm_microservice.Evaluator.Load.{initial_load, serve_load, dimensions, to_deliver}
use osrm_microservice.Evaluator.Metrics.{windows_of}
use osrm_microservice.Evaluator.Legal.{route_is_legal, fits, in_hard_window}
use osrm_microservice.Evaluator.Legal.Kept.{Keeps, HoursKept, route_is_legal-Keeps}
use osrm_microservice.Examples.Town.{van, town}

abbrev ruled : Problem
ruled = record town { vehicles = record van { hos_rules = some "EU-561" } ∷ [] }

ruled_legal : route_is_legal ruled "van" ("parcel" ∷ []) ≡ ok true
unfolding route_is_legal fits in_hard_window windows_of contains build_timeline vehicle order
    location initial_load serve_all serve served reading stop_of service_start drained end_step
    ends_at is_electric serve_load dimensions to_deliver service_time stop_service stop_at
    handled_quantity travel_between scaled profile_for_arc duration distance cell ◌+ℤ◌ ◌-ℤ◌ ◌*ℤ◌
    div_ℤ max_ℤ maybe_charge member amount total insert schedule_route schedule_stops schedule_stop
    index_of at_stop drive_leg init_state advance consume drive_until_break rules_for
ruled_legal = refl

route_is_legal-Keeps_example :
    (v : Vehicle) × (timeline : List Step) × (vehicle ruled "van" ≡ ok v)
    × (build_timeline ruled "van" ("parcel" ∷ []) none [] ≡ ok timeline)
    × All (Keeps ruled v) timeline
    × EndsBy v.shift.end timeline
    × HoursKept ruled "van" ("parcel" ∷ []) v v.hos_rules
route_is_legal-Keeps_example = route_is_legal-Keeps ruled "van" ("parcel" ∷ []) ruled_legal
