-- ===== src/Consistency.antt =====
-- Workload and consistency of vrp/consistency.py. Territories, which sort by a bearing in floats, and
-- the alignment of departures, which asks a solver, are left out.
use osrm_microservice.Prelude.{
  Bool, not, List, [], ◌∷◌, map, keep, any, length, ltb, if◌then◌else◌, ℤ, pos, ◌+ℤ◌, ◌-ℤ◌, max_ℤ,
  Result, ok, map_result, sum_result, count_if, greatest, least, ◌>>=◌,
}
use osrm_microservice.Model.Order.{is_empty}
use osrm_microservice.Model.Matrix.{distance, duration}
use osrm_microservice.Model.Problem.{Problem, location, position}
use osrm_microservice.Model.Plan.{Step, Route, Solution, named}

pub record Spread : Type 0 where
  pub duration : ℤ
  pub distance : ℤ
  pub stops : ℤ

-- `Spread.worst`
unfoldable pub worst : Spread → ℤ
worst s = max_ℤ s.duration (max_ℤ s.distance s.stops)

abbrev pub names_order : Step → Bool
names_order step = not (is_empty (named step.order_id))

-- `_working`
unfoldable pub working : Solution → List Route
working s = keep (λ r. any names_order r.steps) s.routes

-- What one route carries: metres, seconds and stops.
pub record Work : Type 0 where
  pub metres : ℤ
  pub seconds : ℤ
  pub stops : ℤ

unfoldable pub travel_of : Problem → Step → List Step → Result (ℤ × ℤ)
travel_of p previous [] = ok (pos 0, pos 0)
travel_of p previous (current ∷ later) = do
  origin ← location p previous.location_id
  destination ← location p current.location_id
  metres ← distance p.matrix (position origin) (position destination)
  seconds ← duration p.matrix (position origin) (position destination)
  (more_metres, more_seconds) ← travel_of p current later
  ok (metres +ℤ more_metres, seconds +ℤ more_seconds)

unfoldable pub route_travel : Problem → List Step → Result (ℤ × ℤ)
unfolding travel_of
route_travel p [] = ok (pos 0, pos 0)
route_travel p (first ∷ later) = travel_of p first later

unfoldable pub route_work : Problem → Route → Result Work
unfolding route_travel
route_work p r = do
  (metres, seconds) ← route_travel p r.steps
  ok (record { metres = metres; seconds = seconds; stops = pos (count_if names_order r.steps) })

abbrev spread_of : List ℤ → ℤ
spread_of xs = greatest xs -ℤ least xs

unfoldable pub workload_spread : Problem → Solution → Result Spread
unfolding route_work working
workload_spread p s =
    if ltb (length (working s)) 2
    then ok (record { duration = pos 0; distance = pos 0; stops = pos 0 })
    else do
      works ← map_result (route_work p) (working s)
      ok (record {
        duration = spread_of (map (λ w. w.seconds) works);
        distance = spread_of (map (λ w. w.metres) works);
        stops = spread_of (map (λ w. w.stops) works);
      })

unfoldable pub imbalance : Problem → Solution → Result ℤ
unfolding workload_spread worst
imbalance p s = do spread ← workload_spread p s; ok (worst spread)

-- `_distance`
unfoldable pub plan_metres : Problem → Solution → Result ℤ
unfolding route_travel
plan_metres p s = sum_result (λ r. do t ← route_travel p r.steps; ok t.0) s.routes

pub record Price : Type 0 where
  pub unconstrained : ℤ
  pub consistent : ℤ

-- `Price.delta`
unfoldable pub delta : Price → ℤ
delta price = price.consistent -ℤ price.unconstrained

unfoldable pub consistency_price : Problem → Solution → Solution → Result Price
unfolding plan_metres
consistency_price p unconstrained consistent = do
  a ← plan_metres p unconstrained
  b ← plan_metres p consistent
  ok (record { unconstrained = a; consistent = b })
