-- ===== src/Examples/Arcs.antt =====
-- A day of three hours: one at the free-flow speed, one at half of it, one at twice the speed.
use osrm_microservice.Prelude.{
  ℕ, map, ◌+◌, ◌*◌, ◌≤◌, ◌≡◌, refl, arith, ◌∷◌, List, [], ℤ, pos, ◌≤ℤ◌, ◌+ℤ◌, mod_ℤ, ok, err,
  value_error, length,
}
use osrm_microservice.TimeDependent.{
  SpeedProfile, IsProfile, speed_profile, ppt, multiplier_at, to_boundary, fastest_ppt, travel,
  arrival, fastest_possible, Move, FilterReport, filter_moves,
}
use osrm_microservice.TimeDependent.Profile.{speed_profile-IsProfile}
use osrm_microservice.TimeDependent.Seconds.{IsFirst, travel-IsFirst}
use osrm_microservice.TimeDependent.Fifo.{arrival-fifo, fastest_possible-le-travel}
use osrm_microservice.TimeDependent.Filter.{late_count, filter_moves-counts-late}

abbrev rush : SpeedProfile
rush = record { bucket_seconds = 3600; multipliers_ppt = 1000 ∷ 500 ∷ 2000 ∷ [] }

rush-IsProfile : IsProfile rush
rush-IsProfile = record {
  bucket_pos = omega arith;
  some_bucket = omega arith;
  all_pos = (omega arith, (omega arith, (omega arith, tt)));
}

-- The constructor refuses a standstill.
speed_profile_standstill : speed_profile (pos 3600) (pos 1000 ∷ pos 0 ∷ []) ≡ err value_error
unfolding speed_profile
speed_profile_standstill = refl

rush_built : speed_profile (pos 3600) (pos 1000 ∷ pos 500 ∷ pos 2000 ∷ []) ≡ ok rush
unfolding speed_profile
rush_built = refl

speed_profile-IsProfile_example :
    IsProfile rush
    × (pos rush.bucket_seconds ≡ pos 3600)
    × (map pos rush.multipliers_ppt ≡ pos 1000 ∷ pos 500 ∷ pos 2000 ∷ [])
speed_profile-IsProfile_example =
    speed_profile-IsProfile (pos 3600) (pos 1000 ∷ pos 500 ∷ pos 2000 ∷ []) {p = rush} rush_built

-- Half an hour at each of the first two speeds.
travel_across : travel (pos 2700) (pos 1800) rush ≡ ok 3600
unfolding travel multiplier_at mod_ℤ to_boundary ◌+ℤ◌
travel_across = refl

arrival-fifo_example :
    (a b : ℤ) × (arrival (pos 2700) (pos 1800) rush ≡ ok a)
    × (arrival (pos 2700) (pos 3000) rush ≡ ok b)
    × (a ≤ℤ b)
arrival-fifo_example = arrival-fifo rush 2700 (pos 1800) (pos 3000) rush-IsProfile (omega arith)

travel-IsFirst_example :
    (t : ℕ) × (travel (pos 2700) (pos 1800) rush ≡ ok t) × IsFirst rush (2700 * ppt) (pos 1800) t
travel-IsFirst_example = travel-IsFirst rush 2700 (pos 1800) rush-IsProfile

fastest_possible-le-travel_example : fastest_possible (pos 2700) rush ≤ 3600
fastest_possible-le-travel_example =
    fastest_possible-le-travel rush (pos 2700) (pos 1800) 3600 rush-IsProfile travel_across

-- One move that is in time, one that is late although its bound is not, one that the bound prunes.
abbrev moves : List Move
moves =
    record { free_flow = pos 2700; depart = pos 1800; deadline = pos 5400 }
    ∷ record { free_flow = pos 2700; depart = pos 1800; deadline = pos 5000 }
    ∷ record { free_flow = pos 2700; depart = pos 1800; deadline = pos 2000 }
    ∷ []

filter_moves_three :
    filter_moves rush moves ≡ ok (record { considered = 3; pruned = 1; passed_then_rejected = 1 })
unfolding filter_moves arrival fastest_possible travel ◌+ℤ◌ fastest_ppt multiplier_at mod_ℤ
    to_boundary
filter_moves_three = refl

filter_moves-counts-late_example :
    (r : FilterReport) × (filter_moves rush moves ≡ ok r)
    × (r.considered ≡ length moves)
    × (r.pruned + r.passed_then_rejected ≡ late_count rush moves)
filter_moves-counts-late_example =
    filter_moves-counts-late rush moves rush-IsProfile
      (omega arith, (omega arith, (omega arith, tt)))
