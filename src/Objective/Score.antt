-- ===== src/Objective/Score.antt =====
-- `rates`, `_operating` and `score` of vrp/objective.py.
use osrm_microservice.Prelude.{
  Bool, true, false, not, Option, none, some, List, keep, length, if◌then◌else◌, String, member, ℤ,
  pos, ◌+ℤ◌, ◌*ℤ◌, max_ℤ, Result, ok, sum_of, sum_result, count_if, ◌>>=◌,
}
use osrm_microservice.Model.Order.{Order}
use osrm_microservice.Model.Problem.{Problem, vehicle}
use osrm_microservice.Model.Plan.{Route, Solution, named}
use osrm_microservice.Evaluator.Metrics.{soft_penalties}
use osrm_microservice.Evaluator.Score.{fleet_prices_itself}
use osrm_microservice.Verify.Findings.{gather}
use osrm_microservice.Consistency.{names_order, working, route_travel, imbalance}
use osrm_microservice.Stability.{churn}
use osrm_microservice.Objective.{
  Tier, TierValues, Mode, ObjectiveSpec, total_of, min_vehicles, min_duration,
}
use osrm_microservice.Objective.Bounds.{is_p0, prize_or_one, tier_scales}

pub record Rates : Type 0 where
  pub fixed : ℤ
  pub per_metre : ℤ
  pub per_second : ℤ
  pub per_order : ℤ

-- `ObjectiveSpec.rates`: the fleet prices itself as a whole, or the rates of the spec hold for all.
unfoldable pub rates : ObjectiveSpec → Problem → String → Result Rates
rates spec p i = do
  v ← vehicle p i
  ok (
      if fleet_prices_itself p
      then record {
        fixed = v.fixed_cost;
        per_metre = v.cost_per_metre;
        per_second = v.cost_per_second;
        per_order = v.cost_per_order;
      }
      else record {
        fixed = spec.vehicle_fixed_cost;
        per_metre = spec.cost_per_metre;
        per_second = spec.cost_per_second;
        per_order = pos 0;
      })

abbrev pub is_min_duration : Mode → Bool
is_min_duration min_duration = true
is_min_duration _ = false

abbrev pub is_min_vehicles : Mode → Bool
is_min_vehicles min_vehicles = true
is_min_vehicles _ = false

-- The price of one route; the mode that minimises duration ignores the metres.
unfoldable pub price_of : Mode → Rates → ℤ × ℤ → ℤ → ℤ
price_of mode r (metres, seconds) carried =
    if is_min_duration mode
    then seconds *ℤ max_ℤ r.per_second (pos 1) +ℤ carried *ℤ r.per_order
    else metres *ℤ r.per_metre +ℤ seconds *ℤ r.per_second +ℤ carried *ℤ r.per_order

-- `_operating`
unfoldable pub route_operating : Problem → ObjectiveSpec → Route → Result ℤ
unfolding rates price_of
route_operating p spec r = do
  own ← rates spec p r.vehicle_id
  travelled ← route_travel p r.steps
  ok (price_of spec.mode own travelled (pos (count_if names_order r.steps)))

-- The orders that no step names.
unfoldable pub left_out : Problem → Solution → List Order
left_out p s =
    keep
      (λ o. not (member o.id (gather (λ r. gather (λ step. named step.order_id) r.steps) s.routes)))
      p.orders

unfoldable pub fleet_value : Problem → ObjectiveSpec → Solution → Result ℤ
unfolding rates
fleet_value p spec s =
    if is_min_vehicles spec.mode
    then ok (pos (length (working s)))
    else sum_result (λ r. do own ← rates spec p r.vehicle_id; ok own.fixed) (working s)

unfoldable pub soft_value : Problem → Solution → Result ℤ
soft_value p s =
    sum_result
      (λ r. sum_result (λ step. do costs ← soft_penalties p step; ok (costs.0 +ℤ costs.1)) r.steps)
      s.routes

-- `_churn_term`
unfoldable pub churn_term : Option Solution → Solution → ℤ
churn_term none candidate = pos 0
churn_term (some previous) candidate =
    (churn previous candidate).moved +ℤ (churn previous candidate).eta_shift

pub record Score : Type 0 where
  pub values : TierValues
  pub total : ℤ

-- The values by tier; hard violations are the verifier's.
unfoldable pub values_of : List Order → ℤ → ℤ → ℤ → ℤ → TierValues
values_of unassigned in_fleet on_road late uneven Tier.hard = pos 0
values_of unassigned in_fleet on_road late uneven Tier.unserved_p0 = pos (count_if is_p0 unassigned)
values_of unassigned in_fleet on_road late uneven Tier.unserved =
    sum_of prize_or_one (keep (λ o. not (is_p0 o)) unassigned)
values_of unassigned in_fleet on_road late uneven Tier.fleet = in_fleet
values_of unassigned in_fleet on_road late uneven Tier.operating = on_road
values_of unassigned in_fleet on_road late uneven Tier.soft = late
values_of unassigned in_fleet on_road late uneven Tier.quality = uneven

unfoldable pub score : Problem → Solution → ObjectiveSpec → Option Solution → Result Score
unfolding route_operating left_out fleet_value soft_value churn_term values_of
score p s spec previous = do
  in_fleet ← fleet_value p spec s
  on_road ← sum_result (route_operating p spec) (working s)
  late ← soft_value p s
  uneven ← imbalance p s
  let values = values_of (left_out p s) in_fleet on_road late (uneven +ℤ churn_term previous s)
  ok (record { values = values; total = total_of values (tier_scales p spec) })
