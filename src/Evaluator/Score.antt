-- ===== src/Evaluator/Score.antt =====
-- `evaluate` of vrp/evaluator.py: the score of an assignment of orders to vehicles.
pub mod Breakdown
use osrm_microservice.Prelude.{
  Bool, true, false, ◌||◌, not, List, [], ◌∷◌, ◌++◌, if◌then◌else◌, any, keep, length, String,
  lookup, member, ℤ, pos, ◌+ℤ◌, ◌*ℤ◌, eqb_ℤ, Result, ok, ◌>>=◌,
}
use osrm_microservice.Model.Order.{Order, is_empty}
use osrm_microservice.Model.Problem.{Problem, vehicle}
use osrm_microservice.Model.Plan.{Step}
use osrm_microservice.Evaluator.Timeline.{build_timeline}
use osrm_microservice.Evaluator.Metrics.{Metrics, no_metrics, route_metrics}

pub record ObjectiveWeights : Type 0 where
  pub per_metre : ℤ
  pub per_second : ℤ
  pub per_vehicle : ℤ
  pub unassigned_penalty : ℤ

-- `ObjectiveWeights()`
abbrev pub default_weights : ObjectiveWeights
default_weights = record {
  per_metre = pos 1;
  per_second = pos 0;
  per_vehicle = pos 0;
  unassigned_penalty = pos 1000000;
}

-- Whether an integer counts as true.
abbrev pub is_set : ℤ → Bool
is_set a = not (eqb_ℤ a (pos 0))

unfoldable pub fleet_prices_itself : Problem → Bool
fleet_prices_itself p =
    any
      (λ v.
        is_set v.fixed_cost
        || is_set v.cost_per_metre
        || is_set v.cost_per_second
        || is_set v.cost_per_order)
      p.vehicles

unfoldable pub vehicle_cost : Problem → String → ObjectiveWeights → Bool → Result ℤ
vehicle_cost p i weights false = ok weights.per_vehicle
vehicle_cost p i weights true = do v ← vehicle p i; ok v.fixed_cost

unfoldable pub operating_cost :
    Problem → String → List String → Metrics → ObjectiveWeights → Bool → Result ℤ
operating_cost p i ids m weights priced = do
  let seconds = m.driving_seconds +ℤ m.waiting_seconds +ℤ m.service_seconds
  if not priced then ok (m.distance *ℤ weights.per_metre +ℤ seconds *ℤ weights.per_second) else do
    v ← vehicle p i
    ok (
        m.distance *ℤ v.cost_per_metre
        +ℤ seconds *ℤ v.cost_per_second
        +ℤ pos (length ids) *ℤ v.cost_per_order)

abbrev pub add_metrics : Metrics → Metrics → Metrics
add_metrics a b = record {
  distance = a.distance +ℤ b.distance;
  driving_seconds = a.driving_seconds +ℤ b.driving_seconds;
  waiting_seconds = a.waiting_seconds +ℤ b.waiting_seconds;
  service_seconds = a.service_seconds +ℤ b.service_seconds;
  earliness_penalty = a.earliness_penalty +ℤ b.earliness_penalty;
  lateness_penalty = a.lateness_penalty +ℤ b.lateness_penalty;
}

-- The variables of the loop over the assignment.
pub record Tally : Type 0 where
  pub totals : Metrics
  pub timelines : List (String × List Step)
  pub deployed : ℤ
  pub operating : ℤ

-- One round; a vehicle without orders is not deployed.
unfoldable pub score_route :
    Problem
    → ObjectiveWeights
    → Bool
    → List (String × ℤ)
    → String × List String
    → Tally
    → Result Tally
score_route p weights priced start_times (i, ids) t = if is_empty ids then ok t else do
  cost ← vehicle_cost p i weights priced
  timeline ← build_timeline p i ids (lookup i start_times) []
  m ← route_metrics p timeline
  rate ← operating_cost p i ids m weights priced
  ok (record {
    totals = add_metrics t.totals m;
    timelines = t.timelines ++ (i, timeline) ∷ [];
    deployed = t.deployed +ℤ cost;
    operating = t.operating +ℤ rate;
  })

unfoldable pub score_routes :
    Problem
    → ObjectiveWeights
    → Bool
    → List (String × ℤ)
    → List (String × List String)
    → Tally
    → Result Tally
unfolding score_route
score_routes p weights priced start_times [] t = ok t
score_routes p weights priced start_times (route ∷ routes) t = do
  t' ← score_route p weights priced start_times route t
  score_routes p weights priced start_times routes t'

abbrev pub served_ids : List (String × List String) → List String
served_ids [] = []
served_ids ((i, ids) ∷ routes) = ids ++ served_ids routes

-- `order.prize or weights.unassigned_penalty`, summed.
unfoldable pub penalty_of : ObjectiveWeights → List Order → ℤ
penalty_of weights [] = pos 0
penalty_of weights (o ∷ os) =
    (if is_set o.prize then o.prize else weights.unassigned_penalty) +ℤ penalty_of weights os

abbrev pub unassigned : Problem → List (String × List String) → List Order
unassigned p assignment = keep (λ o. not (member o.id (served_ids assignment))) p.orders

pub record Evaluation : Type 0 where
  pub total : ℤ
  pub totals : Metrics
  pub vehicles : ℤ
  pub unassigned_penalty : ℤ
  pub timelines : List (String × List Step)

unfoldable pub evaluate :
    Problem → List (String × List String) → ObjectiveWeights → List (String × ℤ) → Result Evaluation
unfolding score_routes penalty_of
evaluate p assignment weights start_times = do
  t ←
      score_routes p weights (fleet_prices_itself p) start_times assignment
        (record { totals = no_metrics; timelines = []; deployed = pos 0; operating = pos 0 })
  let penalty = penalty_of weights (unassigned p assignment)
  ok (record {
    total =
        t.operating +ℤ t.deployed +ℤ t.totals.earliness_penalty +ℤ t.totals.lateness_penalty
        +ℤ penalty;
    totals = t.totals;
    vehicles = t.deployed;
    unassigned_penalty = penalty;
    timelines = t.timelines;
  })

-- The breakdown as the dict that `evaluate` returns.
abbrev pub breakdown : Evaluation → List (String × ℤ)
breakdown e =
    ("distance", e.totals.distance)
    ∷ ("driving_seconds", e.totals.driving_seconds)
    ∷ ("waiting_seconds", e.totals.waiting_seconds)
    ∷ ("service_seconds", e.totals.service_seconds)
    ∷ ("earliness_penalty", e.totals.earliness_penalty)
    ∷ ("lateness_penalty", e.totals.lateness_penalty)
    ∷ ("vehicles", e.vehicles)
    ∷ ("unassigned_penalty", e.unassigned_penalty)
    ∷ []
