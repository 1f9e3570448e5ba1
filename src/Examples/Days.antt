-- ===== src/Examples/Days.antt =====
-- A diesel van that serves one delivery from one depot.
use osrm_microservice.Prelude.{
  ◌≡◌, ◌≤◌, ◌↔◌, ◌⊎◌, ℕ, true, err, unreachable_arc, refl, arith, ◌∷◌, List, [], some, none, false,
  pos, ◌+ℤ◌, ◌-ℤ◌, max_ℤ, subst, ok, map_result,
}
use osrm_microservice.Hos.Rules.{init_state}
use osrm_microservice.Model.Window.{contains}
use osrm_microservice.Model.Stop.{StopSpec}
use osrm_microservice.Model.Problem.{vehicle, order}
use osrm_microservice.Model.Plan.{Step}
use osrm_microservice.Model.Service.{delivery_or_pickup}
use osrm_microservice.Model.Matrix.{duration, distance, size, check_matrix, square, is_reachable}
use osrm_microservice.Model.Matrix.Cells.{duration-or-raise}
use osrm_microservice.Hos.Schedule.{ScheduledRoute, schedule_route, carry_over}
use osrm_microservice.Hos.Schedule.Agreement.{Windowed, AtMostOne, schedule-agrees-evaluator}
use osrm_microservice.Evaluator.Metrics.{
  Metrics, route_metrics, Attainment, window_attainment, attained_ppt, missed, full, windows_of,
  is_kept, late_by, last_closed, count_step,
}
use osrm_microservice.Evaluator.Metrics.Promises.{IsTally, window_attainment-IsTally}
use osrm_microservice.Evaluator.Score.{default_weights, fleet_prices_itself}
use osrm_microservice.Evaluator.Score.Breakdown.{priced_at, evaluate-accounted}
use osrm_microservice.Evaluator.Accounts.{total_seconds, last_departure, route_metrics-accounts}
use osrm_microservice.Examples.Town.{
  drop, parcel, van, town, day, day_built, town_score, town_scored,
}

van_found : vehicle town "van" ≡ ok van
unfolding vehicle
van_found = refl

parcel_found : map_result (order town) ("parcel" ∷ []) ≡ ok (parcel ∷ [])
unfolding order
parcel_found = refl

only_drop : (stop : StopSpec) → delivery_or_pickup parcel ≡ some stop → drop ≡ stop
only_drop stop e = cc

parcel-Windowed : Windowed parcel
parcel-Windowed stop e = subst (λ s. AtMostOne s.time_windows) (only_drop stop e) (omega arith)

schedule-agrees-evaluator_example :
    (r : ScheduledRoute) × (schedule_route town "van" ("parcel" ∷ []) none none none ≡ ok r)
    × (r.steps ≡ day)
    × (r.state ≡ init_state (carry_over none van))
schedule-agrees-evaluator_example =
    schedule-agrees-evaluator town "van" ("parcel" ∷ []) none none van (parcel ∷ []) day refl refl
      van_found refl parcel_found (parcel-Windowed, tt) day_built

all_kept :
    window_attainment town day
    ≡ ok (record { promised = 1; on_time = 1; lateness_seconds = pos 0; worst_lateness = pos 0 })
unfolding window_attainment windows_of order is_kept contains late_by count_step max_ℤ ◌+ℤ◌
    last_closed
all_kept = refl

abbrev kept : Attainment
kept = record { promised = 1; on_time = 1; lateness_seconds = pos 0; worst_lateness = pos 0 }

window_attainment-IsTally_example :
    IsTally kept
    × (attained_ppt kept ≤ full)
    × ((attained_ppt kept ≡ full) ↔ (missed kept ≡ pos 0))
    × (attained_ppt kept ≡ full → kept.lateness_seconds ≡ pos 0)
window_attainment-IsTally_example = window_attainment-IsTally town day kept all_kept

route_metrics-accounts_example :
    (first : Step) × (later : List Step) × (m : Metrics) × (first ∷ later ≡ day)
    × (route_metrics town day ≡ ok m)
    × (total_seconds m ≡ last_departure first later -ℤ first.departure)
route_metrics-accounts_example =
    route_metrics-accounts town "van" ("parcel" ∷ []) none [] day day_built

matrix_checked : check_matrix town.matrix ≡ ok town.matrix
unfolding check_matrix square
matrix_checked = refl

duration-or-raise_example :
    (((n : ℕ) × (duration town.matrix 0 1 ≡ ok (pos n)) × (is_reachable town.matrix 0 1 ≡ ok true))
      ⊎ ((duration town.matrix 0 1 ≡ err unreachable_arc)
          × (is_reachable town.matrix 0 1 ≡ ok false)))
    × (((n : ℕ) × (distance town.matrix 0 1 ≡ ok (pos n)))
        ⊎ (distance town.matrix 0 1 ≡ err unreachable_arc))
unfolding size
duration-or-raise_example =
    duration-or-raise town.matrix town.matrix 0 1 matrix_checked (omega arith) (omega arith)

town_flat : fleet_prices_itself town ≡ false
unfolding fleet_prices_itself
town_flat = refl

evaluate-accounted_example :
    town_score.total
    ≡ priced_at default_weights town_score.totals
      +ℤ town_score.vehicles
      +ℤ town_score.totals.earliness_penalty
      +ℤ town_score.totals.lateness_penalty
      +ℤ town_score.unassigned_penalty
evaluate-accounted_example =
    evaluate-accounted town (("van", "parcel" ∷ []) ∷ []) default_weights [] town_score town_flat
      town_scored
