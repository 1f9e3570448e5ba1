-- ===== src/Objective/Bounds.antt =====
-- `tier_bounds` and `tier_scales` of vrp/objective.py.
use osrm_microservice.Prelude.{
  Bool, List, map, length, ℤ, pos, ◌+ℤ◌, ◌*ℤ◌, max_ℤ, eqb_ℤ, sum_of, count_if, greatest,
}
use osrm_microservice.Model.Order.{Order}
use osrm_microservice.Model.Matrix.{size, extremes}
use osrm_microservice.Model.Problem.{Problem}
use osrm_microservice.Objective.{Tier, TierValues, ObjectiveSpec, levels, scaled_levels}

-- `leg * max(size, 1) * 2 * max(len(vehicles), 1)`
unfoldable pub longest_tours : Problem → ℤ → ℤ
longest_tours p leg =
    leg *ℤ max_ℤ (pos (size p.matrix)) (pos 1) *ℤ pos 2 *ℤ max_ℤ (pos (length p.vehicles)) (pos 1)

unfoldable pub max_distance : Problem → ℤ
unfolding longest_tours
max_distance p = longest_tours p (extremes p.matrix).0

unfoldable pub max_duration : Problem → ℤ
unfolding longest_tours
max_duration p = longest_tours p (extremes p.matrix).1

-- `o.priority_tier == 0`, and what leaving an order out weighs.
abbrev pub is_p0 : Order → Bool
is_p0 o = eqb_ℤ o.priority_tier (pos 0)

abbrev pub prize_or_one : Order → ℤ
prize_or_one o = max_ℤ o.prize (pos 1)

unfoldable pub operating_bound : Problem → ObjectiveSpec → ℤ
unfolding max_distance max_duration
operating_bound p spec =
    max_ℤ (max_distance p *ℤ spec.cost_per_metre +ℤ max_duration p *ℤ spec.cost_per_second) (
      max_ℤ
        (max_distance p *ℤ greatest (map (λ v. v.cost_per_metre) p.vehicles)
          +ℤ max_duration p *ℤ greatest (map (λ v. v.cost_per_second) p.vehicles)
          +ℤ pos (length p.orders) *ℤ greatest (map (λ v. v.cost_per_order) p.vehicles))
        (pos 1))

-- The largest value that each tier is taken to have.
unfoldable pub tier_bounds : Problem → ObjectiveSpec → TierValues
unfolding operating_bound
tier_bounds p spec Tier.hard = max_ℤ (pos (length p.orders) *ℤ pos 4) (pos 1)
tier_bounds p spec Tier.unserved_p0 = max_ℤ (pos (count_if is_p0 p.orders)) (pos 1)
tier_bounds p spec Tier.unserved =
    max_ℤ (sum_of prize_or_one p.orders) (max_ℤ (pos (length p.orders)) (pos 1))
tier_bounds p spec Tier.fleet = max_ℤ (sum_of (λ v. v.fixed_cost) p.vehicles) (
    max_ℤ (pos (length p.vehicles) *ℤ spec.vehicle_fixed_cost)
      (max_ℤ (pos (length p.vehicles)) (pos 1)))
tier_bounds p spec Tier.operating = operating_bound p spec
tier_bounds p spec Tier.soft = max_ℤ (max_duration p) (pos 1)
tier_bounds p spec Tier.quality =
    max_ℤ (max_distance p) (max_ℤ (max_duration p) (max_ℤ (pos (length p.orders)) (pos 1)))

unfoldable pub tier_scales : Problem → ObjectiveSpec → List (Tier × ℤ)
unfolding tier_bounds
tier_scales p spec = (scaled_levels (tier_bounds p spec) (levels spec)).scales
