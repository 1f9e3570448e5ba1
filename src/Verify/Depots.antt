-- ===== src/Verify/Depots.antt =====
-- `_check_docks` and `_check_inventory` of vrp/verify/verifier.py (INV-12, INV-13): what all routes
-- together ask of a depot.
pub mod Sweep
pub mod Docks
use osrm_microservice.Prelude.{
  ℕ, suc, Bool, true, false, ◌&&◌, ◌||◌, Option, none, some, given_or, List, [], ◌∷◌, ◌++◌,
  if◌then◌else◌, any, String, lookup, insert, amount, ℤ, pos, ◌+ℤ◌, leb_ℤ, ltb_ℤ, Result, ok, ◌>>=◌,
}
use osrm_microservice.Model.Stop.{Quantities}
use osrm_microservice.Model.Order.{is_some}
use osrm_microservice.Model.Problem.{Problem, location, order, vehicle}
use osrm_microservice.Model.Plan.{Step, Route, Solution, is_start, is_reload}
use osrm_microservice.Verify.Findings.{Violation, inv_12, inv_13, fails_if, on_plan, gather, each}

abbrev pub Spans : Type 0
Spans = List (ℤ × ℤ)

-- A step that stands at a bay for some time adds its span to those of its location.
unfoldable pub occupy : Step → List (String × Spans) → List (String × Spans)
occupy step spans =
    if (is_start step.type || is_reload step.type) && ltb_ℤ step.start_service step.departure
    then insert step.location_id
        (given_or (lookup step.location_id spans) [] ++ (step.start_service, step.departure) ∷ [])
        spans
    else spans

unfoldable pub occupy_all : List Step → List (String × Spans) → List (String × Spans)
unfolding occupy
occupy_all [] spans = spans
occupy_all (step ∷ steps) spans = occupy_all steps (occupy step spans)

unfoldable pub occupancy : List Route → List (String × Spans) → List (String × Spans)
unfolding occupy_all
occupancy [] spans = spans
occupancy (r ∷ rs) spans = occupancy rs (occupy_all r.steps spans)

-- `begin <= instant < end`
abbrev pub covers : ℤ → ℤ × ℤ → Bool
covers instant span = leb_ℤ span.0 instant && ltb_ℤ instant span.1

-- How many spans cover an instant.
unfoldable pub at_bay : ℤ → Spans → ℕ
at_bay instant [] = 0
at_bay instant (span ∷ spans) =
    let rest = at_bay instant spans in if covers instant span then suc rest else rest

-- Some span begins while more vehicles are there than there are bays.
unfoldable pub is_crowded : ℤ → Spans → Bool
unfolding at_bay
is_crowded capacity spans = any (λ span. ltb_ℤ capacity (pos (at_bay span.0 spans))) spans

-- The sweep stops at the first excess of a location.
abbrev dock_violations : Option ℤ → Spans → List Violation
dock_violations none spans = []
dock_violations (some capacity) spans = fails_if (is_crowded capacity spans) (on_plan inv_12)

unfoldable pub check_location_docks : Problem → String × Spans → Result (List Violation)
unfolding is_crowded
check_location_docks p (i, spans) = do l ← location p i; ok (dock_violations l.dock_capacity spans)

unfoldable pub check_docks : Problem → Solution → Result (List Violation)
unfolding check_location_docks occupancy
check_docks p s = each (check_location_docks p) (occupancy s.routes [])

-- `home[dimension] = home.get(dimension, 0) + amount`
unfoldable pub draw : Quantities → Quantities → Quantities
draw [] home = home
draw ((dimension, q) ∷ rest) home = draw rest (insert dimension (amount dimension home +ℤ q) home)

-- A pickup is stock arriving.
unfoldable pub draw_step : Problem → Step → Quantities → Result Quantities
unfolding draw
draw_step p step home = elim step.order_id [
  | none ↦ ok home
  | some i ↦ do o ← order p i; ok (if is_some o.delivery then draw o.quantities home else home)
]

unfoldable pub draw_steps : Problem → List Step → Quantities → Result Quantities
unfolding draw_step
draw_steps p [] home = ok home
draw_steps p (step ∷ steps) home = do home' ← draw_step p step home; draw_steps p steps home'

-- What the routes draw from the location that their vehicle starts at.
unfoldable pub drawn :
    Problem → List Route → List (String × Quantities) → Result (List (String × Quantities))
unfolding draw_steps
drawn p [] taken = ok taken
drawn p (r ∷ rs) taken = do
  v ← vehicle p r.vehicle_id
  home ← draw_steps p r.steps (given_or (lookup v.start_location_id taken) [])
  drawn p rs (insert v.start_location_id home taken)

abbrev over_drawn : Option ℤ → ℤ → Bool
over_drawn none taken = false
over_drawn (some held) taken = ltb_ℤ held taken

-- The dimensions are read sorted; only the order of the violations, all alike, depends on that.
unfoldable pub check_stock : Problem → String × Quantities → Result (List Violation)
check_stock p (i, totals) = do
  l ← location p i
  ok (
      gather
        (λ e. fails_if (over_drawn (lookup e.0 (given_or l.inventory [])) e.1) (on_plan inv_13))
        totals)

unfoldable pub check_inventory : Problem → Solution → Result (List Violation)
unfolding drawn check_stock
check_inventory p s = do taken ← drawn p s.routes []; each (check_stock p) taken
