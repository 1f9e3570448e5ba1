-- ===== src/Verify/Compatibility.antt =====
-- `_check_compatibility` and `_check_reloads` of vrp/verify/verifier.py (INV-10, INV-11). A set of
-- classes is a list that is read by membership.
pub mod Pairwise
use osrm_microservice.Prelude.{
  Bool, true, false, ◌&&◌, ◌||◌, not, Option, none, some, List, [], ◌∷◌, ◌++◌, if◌then◌else◌, any,
  keep, String, member, is_subset, ℤ, pos, ltb_ℤ, length, Result, ok, ◌>>=◌,
}
use osrm_microservice.Model.Stop.{Location, is_given}
use osrm_microservice.Model.Order.{Order, is_empty}
use osrm_microservice.Model.Vehicle.{Vehicle}
use osrm_microservice.Model.Problem.{Problem, location, order, vehicle}
use osrm_microservice.Model.Plan.{Step, Route, is_reload}
use osrm_microservice.Verify.Findings.{
  Violation, inv_10, inv_11, fails_if, on_step, on_vehicle, gather,
}

-- The running sets of a route.
pub record Aboard : Type 0 where
  pub carried : List String
  pub forbidden : List String

abbrev pub empty_route : Aboard
empty_route = record { carried = []; forbidden = [] }

-- The class as a set: an empty text is no class.
abbrev pub class_of : Option String → List String
class_of none = []
class_of (some c) = if is_given c then c ∷ [] else []

-- `a & b` is not empty.
unfoldable pub meets : List String → List String → Bool
meets xs ys = any (λ x. member x ys) xs

unfoldable pub clashes : Aboard → Order → Bool × Bool
unfolding meets
clashes s o = (meets (class_of o.order_class) s.forbidden, meets o.incompatible_with s.carried)

unfoldable pub take_aboard : Order → Aboard → Aboard
take_aboard o s = record {
  carried = class_of o.order_class ++ s.carried;
  forbidden = o.incompatible_with ++ s.forbidden;
}

abbrev in_access_class : Option String → List String → Bool
in_access_class none classes = false
in_access_class (some c) classes = member c classes

abbrev pub outweighs : Option ℤ → Option ℤ → Bool
outweighs (some weight) (some limit) = ltb_ℤ limit weight
outweighs _ _ = false

unfoldable pub bars : Location → Vehicle → Bool
bars l v = not (is_empty l.access_classes) && not (in_access_class v.access_class l.access_classes)

unfoldable pub step_clashes : Vehicle → Location → Order → Aboard → Violation → List Violation
unfolding clashes bars
step_clashes v l o s x =
    fails_if (not (is_subset o.required_skills v.skills)) x
    ++ fails_if (clashes s o).0 x
    ++ fails_if (clashes s o).1 x
    ++ fails_if (bars l v) x
    ++ fails_if (outweighs v.gross_weight_kg l.max_vehicle_kg) x

-- The loop over the steps; a step without an order is passed over.
unfoldable pub check_aboard :
    Problem → String → Vehicle → Aboard → List Step → Result (List Violation)
unfolding step_clashes take_aboard
check_aboard p i v s [] = ok []
check_aboard p i v s (step ∷ steps) = elim step.order_id [
  | none ↦ check_aboard p i v s steps
  | some j ↦ do
    o ← order p j
    l ← location p step.location_id
    more ← check_aboard p i v (take_aboard o s) steps
    ok (step_clashes v l o s (on_step inv_10 i step) ++ more)
]

unfoldable pub check_compatibility : Problem → Route → Result (List Violation)
unfolding check_aboard
check_compatibility p r = do
  v ← vehicle p r.vehicle_id
  check_aboard p r.vehicle_id v empty_route r.steps

abbrev reload_violations : String → Vehicle → List Step → List Violation
reload_violations i v reloads =
    fails_if (ltb_ℤ v.max_reloads (pos (length reloads))) (on_vehicle inv_11 i)
    ++ gather
        (λ step. fails_if (not (member step.location_id v.reload_locations)) (on_vehicle inv_11 i))
        reloads

-- Without a reload nothing is judged, not even a negative allowance.
unfoldable pub check_reloads : Problem → Route → Result (List Violation)
check_reloads p r = do
  v ← vehicle p r.vehicle_id
  let reloads = keep (λ s. is_reload s.type) r.steps
  if is_empty reloads then ok [] else ok (reload_violations r.vehicle_id v reloads)
