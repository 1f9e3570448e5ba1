-- ===== src/Examples/Values.antt =====
-- Values of plans for the town, and the locks that commit its plan.
use osrm_microservice.Prelude.{
  arith, ◌≡◌, refl, true, [], ◌∷◌, All, all_distinct, member, ℤ, pos, negsuc, ◌+ℤ◌, ◌-ℤ◌, ◌*ℤ◌,
  ◌≤ℤ◌, max_ℤ, greatest, ok, ltb_ℤ,
}
use osrm_microservice.Model.Matrix.{size, extremes}
use osrm_microservice.Model.Problem.{Problem}
use osrm_microservice.Objective.{
  Tier, TierValues, default_spec, levels, compare_values, compare_levels, level_difference,
  monetary, total_of, scaled_levels,
}
use osrm_microservice.Objective.Bounds.{
  tier_bounds, tier_scales, operating_bound, max_distance, max_duration, longest_tours,
}
use osrm_microservice.Objective.Total.{Agreement, InBounds, total_of-Agreement}
use osrm_microservice.Objective.Preorder.{compare_values-transitive, compare_values-swap}
use osrm_microservice.Committed.{
  commit_locks, prefix_locks, committed_prefix, prefix_from, prefix_lock, freeze_lock,
}
use osrm_microservice.Committed.Honoured.{IsOrderly, vehicle_ids, commit_locks-honoured}
use osrm_microservice.Verify.Locks.{check_locks}
use osrm_microservice.Examples.Town.{town}
use osrm_microservice.Examples.Plans.{plan}

-- A plan that serves all and drives, one that leaves an order out, and one that is late too.
abbrev valued : ℤ → ℤ → ℤ → TierValues
valued left_out driven late Tier.unserved = left_out
valued left_out driven late Tier.operating = driven
valued left_out driven late Tier.soft = late
valued left_out driven late _ = pos 0

abbrev served_all : TierValues
served_all = valued (pos 0) (pos 16200) (pos 0)

abbrev left_one : TierValues
left_one = valued (pos 1) (pos 0) (pos 0)

abbrev left_late : TierValues
left_late = valued (pos 1) (pos 0) (pos 60)

served_all-InBounds : InBounds town default_spec served_all
unfolding tier_bounds operating_bound max_distance max_duration longest_tours extremes size max_ℤ
    ◌*ℤ◌ ◌+ℤ◌ greatest
served_all-InBounds Tier.hard = (omega arith, omega arith)
served_all-InBounds Tier.unserved_p0 = (omega arith, omega arith)
served_all-InBounds Tier.unserved = (omega arith, omega arith)
served_all-InBounds Tier.fleet = (omega arith, omega arith)
served_all-InBounds Tier.operating = (omega arith, omega arith)
served_all-InBounds Tier.soft = (omega arith, omega arith)
served_all-InBounds Tier.quality = (omega arith, omega arith)

left_one-InBounds : InBounds town default_spec left_one
unfolding tier_bounds operating_bound max_distance max_duration longest_tours extremes size max_ℤ
    ◌*ℤ◌ ◌+ℤ◌ greatest
left_one-InBounds Tier.hard = (omega arith, omega arith)
left_one-InBounds Tier.unserved_p0 = (omega arith, omega arith)
left_one-InBounds Tier.unserved = (omega arith, omega arith)
left_one-InBounds Tier.fleet = (omega arith, omega arith)
left_one-InBounds Tier.operating = (omega arith, omega arith)
left_one-InBounds Tier.soft = (omega arith, omega arith)
left_one-InBounds Tier.quality = (omega arith, omega arith)

total_of-Agreement_example :
    Agreement
      (compare_values served_all left_one default_spec)
      (total_of served_all (tier_scales town default_spec))
      (total_of left_one (tier_scales town default_spec))
total_of-Agreement_example =
    total_of-Agreement town default_spec served_all left_one served_all-InBounds left_one-InBounds

serving_wins : compare_values served_all left_one default_spec ≡ negsuc 0
unfolding compare_values compare_levels levels level_difference monetary ◌+ℤ◌ ◌-ℤ◌
serving_wins = refl

punctual_wins : compare_values left_one left_late default_spec ≡ negsuc 0
unfolding compare_values compare_levels levels level_difference monetary ◌+ℤ◌ ◌-ℤ◌
punctual_wins = refl

not_worse : (c : ℤ) → c ≡ negsuc 0 → c ≤ℤ pos 0
not_worse c e = rw e (omega arith)

compare_values-transitive_example : compare_values served_all left_late default_spec ≤ℤ pos 0
compare_values-transitive_example =
    compare_values-transitive served_all left_one left_late default_spec (not_worse _ serving_wins)
      (not_worse _ punctual_wins)

compare_values-swap_example :
    compare_values left_one served_all default_spec
    ≡ pos 0 -ℤ compare_values served_all left_one default_spec
compare_values-swap_example = compare_values-swap served_all left_one default_spec

-- The lateness of one stop may cost more than the bound of its tier, and then the total prefers the
-- plan that leaves an order out.
abbrev costly_late : TierValues
costly_late = valued (pos 0) (pos 0) (pos 100000000000)

total_misled :
    ltb_ℤ
      (total_of left_one (tier_scales town default_spec))
      (total_of costly_late (tier_scales town default_spec))
    ≡ true
unfolding total_of tier_scales scaled_levels levels monetary tier_bounds operating_bound
    max_distance max_duration longest_tours extremes size max_ℤ ◌*ℤ◌ ◌+ℤ◌ greatest
total_misled = refl

-- The plan at 08:16:40, when the van is on its way to the shop.
abbrev locked_town : Problem
locked_town = record town {
  locks = prefix_lock "van" ("parcel" ∷ []) ∷ freeze_lock (pos 29800) ∷ [];
}

plan_locks : commit_locks plan (pos 29800) ≡ ok locked_town.locks
unfolding commit_locks prefix_locks committed_prefix prefix_from
plan_locks = refl

one_van : all_distinct (vehicle_ids plan.routes) ≡ true
unfolding all_distinct member
one_van = refl

plan-IsOrderly : All IsOrderly plan.routes
plan-IsOrderly = (
  ((refl, (refl, (refl, tt))), (((omega arith, (omega arith, tt)), ((omega arith, tt), (tt, tt))))),
  tt,
)

commit_locks-honoured_example : check_locks locked_town plan ≡ ok []
commit_locks-honoured_example =
    commit_locks-honoured locked_town plan (pos 29800) one_van plan-IsOrderly plan_locks
