-- ===== src/Objective.antt =====
-- vrp/objective.py: the tiers of a plan's value, their precedence, and one number for engines.
pub mod Bounds
pub mod Score
pub mod Total
pub mod Preorder
use osrm_microservice.Prelude.{
  Bool, true, false, List, [], ◌∷◌, ◌++◌, map, if◌then◌else◌, ℤ, pos, negsuc, ◌+ℤ◌, ◌-ℤ◌, ◌*ℤ◌,
  ltb_ℤ, eqb_ℤ, sum_of,
}

-- A lower tier has priority.
pub data Tier : Type 0 where
  hard unserved_p0 unserved fleet operating soft quality : Tier

pub data Mode : Type 0 where
  min_vehicles min_cost min_duration max_service prize_collecting : Mode

-- `TierValues`: a tier that the dict does not hold reads as zero.
abbrev pub TierValues : Type 0
TierValues = Tier → ℤ

pub record ObjectiveSpec : Type 0 where
  pub mode : Mode
  pub vehicle_fixed_cost : ℤ
  pub cost_per_metre : ℤ
  pub cost_per_second : ℤ

-- `ObjectiveSpec()`
abbrev pub default_spec : ObjectiveSpec
default_spec = record {
  mode = min_cost;
  vehicle_fixed_cost = pos 50000;
  cost_per_metre = pos 1;
  cost_per_second = pos 0;
}

abbrev pub middle : Mode → List (List Tier)
middle min_vehicles = (unserved ∷ []) ∷ (fleet ∷ []) ∷ (operating ∷ []) ∷ []
middle prize_collecting = (unserved ∷ fleet ∷ operating ∷ []) ∷ []
middle _ = (unserved ∷ []) ∷ (fleet ∷ operating ∷ []) ∷ []

-- `ObjectiveSpec.levels`: the tiers of one level are traded, the levels are ordered.
unfoldable pub levels : ObjectiveSpec → List (List Tier)
levels spec =
    ((hard ∷ []) ∷ (unserved_p0 ∷ []) ∷ [])
    ++ middle spec.mode
    ++ ((soft ∷ []) ∷ (quality ∷ []) ∷ [])

-- `ObjectiveSpec.monetary`
unfoldable pub monetary : Tier → ℤ → ℤ
monetary t value = value

-- The scales of some levels, and the most that they reach together.
pub record Scaling : Type 0 where
  pub scales : List (Tier × ℤ)
  pub beneath : ℤ

-- From the bottom up: a level scales by one more than all that is beneath it can reach.
unfoldable pub scaled_levels : TierValues → List (List Tier) → Scaling
unfolding monetary
scaled_levels bounds [] = record { scales = []; beneath = pos 0 }
scaled_levels bounds (group ∷ groups) =
    let below = scaled_levels bounds groups in
    let scale = below.beneath +ℤ pos 1 in
    record {
      scales = map (λ t. (t, scale)) group ++ below.scales;
      beneath = below.beneath +ℤ sum_of (λ t. monetary t (bounds t) *ℤ scale) group;
    }

-- `sum(monetary(t, left[t]) - monetary(t, right[t]) for t in group)`
unfoldable pub level_difference : TierValues → TierValues → List Tier → ℤ
unfolding monetary
level_difference left right group = sum_of (λ t. monetary t (left t) -ℤ monetary t (right t)) group

-- One level of the walk: a difference decides, and a tie leaves it to the levels below.
abbrev pub decide : ℤ → ℤ → ℤ
decide d rest = if eqb_ℤ d (pos 0) then rest else if ltb_ℤ d (pos 0) then negsuc 0 else pos 1

-- The walk stops at the first level that differs.
unfoldable pub compare_levels : TierValues → TierValues → List (List Tier) → ℤ
unfolding level_difference
compare_levels left right [] = pos 0
compare_levels left right (group ∷ groups) =
    decide (level_difference left right group) (compare_levels left right groups)

-- `compare`: negative means that `left` is better.
unfoldable pub compare_values : TierValues → TierValues → ObjectiveSpec → ℤ
unfolding compare_levels levels
compare_values left right spec = compare_levels left right (levels spec)

-- `total`
unfoldable pub total_of : TierValues → List (Tier × ℤ) → ℤ
total_of values scales = sum_of (λ x. values x.0 *ℤ x.1) scales
