-- ===== src/Verify/Coverage.antt =====
-- `_check_coverage` of vrp/verify/verifier.py: every order once (INV-1), shipments in pairs (INV-2).
pub mod Once
use osrm_microservice.Prelude.{
  ℕ, suc, ◌==◌, ltb, Bool, true, false, ◌&&◌, not, Option, none, some, List, [], ◌∷◌, ◌++◌, map,
  if◌then◌else◌, String, str_eq, member,
}
use osrm_microservice.Model.Order.{Order, Kind, job, shipment, is_shipment}
use osrm_microservice.Model.Problem.{Problem}
use osrm_microservice.Model.Plan.{Step, StepType, Route, Solution, is_pickup, is_delivery}
use osrm_microservice.Verify.Findings.{Violation, inv_1, inv_2, fails_if, on_order, gather}

abbrev pub order_of : Option String → List String
order_of none = []
order_of (some i) = i ∷ []

-- The orders of `_served_orders`, in the order of the plan.
unfoldable pub served_orders : Solution → List String
served_orders s = gather (λ r. gather (λ step. order_of step.order_id) r.steps) s.routes

-- `counts.get(order_id, 0)`
unfoldable pub count : String → List String → ℕ
count i [] = 0
count i (j ∷ js) = let rest = count i js in if str_eq j i then suc rest else rest

abbrev pub expected : Kind → ℕ
expected job = 1
expected shipment = 2

unfoldable pub order_coverage : List String → List String → Order → List Violation
order_coverage unassigned served o =
    let appearances = count o.id served in
    if member o.id unassigned
    then fails_if (ltb 0 appearances) (on_order inv_1 o.id)
    else if appearances == 0
    then on_order inv_1 o.id ∷ []
    else fails_if (not (appearances == expected o.kind)) (on_order inv_1 o.id)

unfoldable pub unknown_orders : List String → List String → List Violation
unknown_orders known served =
    gather (λ i. fails_if (not (member i known)) (on_order inv_1 i)) served

-- Where a plan serves an order: the vehicle, the index of the step in its route, and its type.
pub record Place : Type 0 where
  pub vehicle_id : String
  pub index : ℕ
  pub type : StepType

abbrev pub is_served_as : String → Option String → Bool
is_served_as i none = false
is_served_as i (some j) = str_eq j i

unfoldable pub places_in : String → String → ℕ → List Step → List Place
places_in i v index [] = []
places_in i v index (step ∷ steps) =
    let rest = places_in i v (suc index) steps in
    if is_served_as i step.order_id
    then record { vehicle_id = v; index = index; type = step.type } ∷ rest
    else rest

unfoldable pub places : String → List Route → List Place
unfolding places_in
places i rs = gather (λ r. places_in i r.vehicle_id 0 r.steps) rs

-- Two ends on one route, the pickup first.
unfoldable pub is_paired : Place → Place → Bool
is_paired a b =
    str_eq a.vehicle_id b.vehicle_id
    && is_pickup a.type
    && is_delivery b.type
    && ltb a.index b.index

-- Any other number of places is reported by INV-1.
unfoldable pub pair_violations : String → List Place → List Violation
pair_violations i (a ∷ b ∷ []) = fails_if (not (is_paired a b)) (on_order inv_2 i)
pair_violations i _ = []

unfoldable pub shipment_pairing : Solution → Order → List Violation
unfolding places pair_violations is_paired
shipment_pairing s o =
    if is_shipment o.kind then pair_violations o.id (places o.id s.routes) else []

unfoldable pub check_coverage : Problem → Solution → List Violation
unfolding served_orders order_coverage unknown_orders shipment_pairing
check_coverage p s =
    gather (order_coverage s.unassigned (served_orders s)) p.orders
    ++ unknown_orders (map (λ o. o.id) p.orders) (served_orders s)
    ++ gather (shipment_pairing s) p.orders
