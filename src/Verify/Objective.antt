-- ===== src/Verify/Objective.antt =====
-- `_check_objective` of vrp/verify/verifier.py (INV-9): the reported breakdown against the routes.
pub mod Agrees
use osrm_microservice.Prelude.{
  Bool, true, false, not, Option, none, some, List, [], ◌∷◌, if◌then◌else◌, String, str_eq, ℤ, pos,
  ◌+ℤ◌, eqb_ℤ, Result, ok, ◌>>=◌,
}
use osrm_microservice.Model.Matrix.{distance}
use osrm_microservice.Model.Order.{is_empty}
use osrm_microservice.Model.Problem.{Problem}
use osrm_microservice.Model.Plan.{Step, Route, Solution}
use osrm_microservice.Model.Travel.{travel_between}
use osrm_microservice.Verify.Findings.{Violation, inv_9, fails_if, on_plan, gather, arc_of}

-- `recomputed`
pub record Recomputed : Type 0 where
  pub distance : ℤ
  pub driving_seconds : ℤ

abbrev pub nothing_recomputed : Recomputed
nothing_recomputed = record { distance = pos 0; driving_seconds = pos 0 }

unfoldable pub recompute_pair : Problem → Step → Step → Recomputed → Result Recomputed
unfolding arc_of
recompute_pair p previous current r = do
  (origin, destination) ← arc_of p previous current
  metres ← distance p.matrix origin destination
  taken ← travel_between p origin destination previous.departure
  ok (record { distance = r.distance +ℤ metres; driving_seconds = r.driving_seconds +ℤ taken })

unfoldable pub recompute_from : Problem → Step → List Step → Recomputed → Result Recomputed
unfolding recompute_pair
recompute_from p previous [] r = ok r
recompute_from p previous (current ∷ later) r = do
  r' ← recompute_pair p previous current r
  recompute_from p current later r'

unfoldable pub recompute_route : Problem → List Step → Recomputed → Result Recomputed
unfolding recompute_from
recompute_route p [] r = ok r
recompute_route p (first ∷ later) r = recompute_from p first later r

unfoldable pub recompute : Problem → List Route → Recomputed → Result Recomputed
unfolding recompute_route
recompute p [] r = ok r
recompute p (route ∷ routes) r = do r' ← recompute_route p route.steps r; recompute p routes r'

-- A component that is not recomputed is not judged.
unfoldable pub component : Recomputed → String → Option ℤ
component r name =
    if str_eq name "distance"
    then some r.distance
    else if str_eq name "driving_seconds"
    then some r.driving_seconds
    else none

abbrev pub disagrees : ℤ → Option ℤ → Bool
disagrees claimed none = false
disagrees claimed (some value) = not (eqb_ℤ claimed value)

unfoldable pub check_claims : Recomputed → List (String × ℤ) → List Violation
unfolding component
check_claims r reported =
    gather (λ e. fails_if (disagrees e.1 (component r e.0)) (on_plan inv_9)) reported

unfoldable pub check_objective : Problem → Solution → Result (List Violation)
unfolding recompute check_claims
check_objective p s =
    if is_empty s.objective_breakdown
    then ok []
    else do r ← recompute p s.routes nothing_recomputed; ok (check_claims r s.objective_breakdown)
