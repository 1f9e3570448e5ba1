-- ===== src/Verify/Locks.antt =====
-- `_check_locks` and `_check_one_lock` of vrp/verify/verifier.py (INV-8): an operator's locks on a
-- finished plan.
use osrm_microservice.Prelude.{
  ℕ, suc, Bool, true, false, ◌&&◌, not, Option, none, some, given_or, List, [], ◌∷◌, if◌then◌else◌,
  keep, leb, String, str_eq, lookup, insert, member, ℤ, ltb_ℤ, Result, ok, value_error, or_raise,
  ◌>>=◌,
}
use osrm_microservice.Model.Order.{is_empty}
use osrm_microservice.Model.Problem.{Problem, vehicle}
use osrm_microservice.Model.Instruction.{
  Lock, LockKind, pin_order_to_vehicle, forbid_order_on_vehicle, fix_route_prefix, fix_sequence,
  force_deploy, forbid_deploy, pin_depot, freeze_until,
}
use osrm_microservice.Model.Plan.{Route, Solution, named}
use osrm_microservice.Verify.Findings.{Violation, inv_8, fails_if, each, gather}

unfoldable pub served_on : Route → List String
served_on r = gather (λ step. named step.order_id) r.steps

-- `route_of` and `sequence`: a later route of an order or of a vehicle replaces an earlier one.
unfoldable pub carry : String → List String → List (String × String) → List (String × String)
carry v [] route_of = route_of
carry v (i ∷ is) route_of = carry v is (insert i v route_of)

unfoldable pub route_of : List Route → List (String × String) → List (String × String)
unfolding carry served_on
route_of [] carriers = carriers
route_of (r ∷ rs) carriers = route_of rs (carry r.vehicle_id (served_on r) carriers)

abbrev pub Sequences : Type 0
Sequences = List (String × List String)

unfoldable pub sequences : List Route → Sequences → Sequences
unfolding served_on
sequences [] seen = seen
sequences (r ∷ rs) seen = sequences rs (insert r.vehicle_id (served_on r) seen)

-- Equality of two texts that may be missing.
abbrev pub same_text : Option String → Option String → Bool
same_text none none = true
same_text (some a) (some b) = str_eq a b
same_text _ _ = false

-- `mapping.get(key)` for a key that may be missing.
abbrev pub get {ℓ} : {A : Type ℓ} → Option String → List (String × A) → Option A
get none m = none
get (some k) m = lookup k m

unfoldable pub deployed : Option String → Sequences → Bool
deployed v seen = not (is_empty (given_or (get v seen) []))

-- `served[:len(wanted)] == wanted`
unfoldable pub starts_with : List String → List String → Bool
starts_with served [] = true
starts_with [] (w ∷ wanted) = false
starts_with (s ∷ served) (w ∷ wanted) = str_eq s w && starts_with served wanted

-- `served.index(o) for o in order_ids if o in served`
unfoldable pub index_in : String → List String → Option ℕ
index_in i [] = none
index_in i (j ∷ js) =
    if str_eq j i then some 0 else elim (index_in i js) [ none ↦ none | some n ↦ some (suc n) ]

unfoldable pub positions : List String → List String → List ℕ
unfolding index_in
positions [] served = []
positions (i ∷ is) served = elim (index_in i served) [
  | none ↦ positions is served
  | some n ↦ n ∷ positions is served
]

-- `positions == sorted(positions)`
unfoldable pub is_sorted : List ℕ → Bool
is_sorted [] = true
is_sorted (a ∷ []) = true
is_sorted (a ∷ b ∷ rest) = leb a b && is_sorted (b ∷ rest)

abbrev pins : LockKind → Bool
pins pin_order_to_vehicle = true
pins fix_route_prefix = true
pins fix_sequence = true
pins _ = false

abbrev pinned_by : Lock → List String
pinned_by k =
    if pins k.kind
    then (if is_empty (named k.order_id) then k.order_ids else named k.order_id)
    else []

unfoldable pub pinned : List Lock → List String
pinned ks = gather pinned_by ks

-- The orders served before the horizon that no lock pins.
unfoldable pub early : List Route → ℤ → List String → List String
early rs horizon held =
    gather
      (λ r.
        gather
          (λ step.
            keep (λ i. ltb_ℤ step.start_service horizon && not (member i held))
              (named step.order_id))
          r.steps)
      rs

-- An unserved order has no depot.
unfoldable pub from_depot : Problem → Option String → Option String → Result Bool
from_depot p none depot = ok false
from_depot p (some carrier) depot = do
  v ← vehicle p carrier
  ok (same_text (some v.start_location_id) depot)

-- Whether the plan satisfies the lock.
unfoldable pub honours :
    Problem → Solution → List (String × String) → Sequences → Lock → LockKind → Result Bool
unfolding deployed starts_with positions is_sorted pinned early from_depot
honours p s carriers seen k pin_order_to_vehicle =
    ok (same_text (get k.order_id carriers) k.vehicle_id)
honours p s carriers seen k forbid_order_on_vehicle =
    ok (not (same_text (get k.order_id carriers) k.vehicle_id))
honours p s carriers seen k fix_route_prefix =
    ok (starts_with (given_or (get k.vehicle_id seen) []) k.order_ids)
honours p s carriers seen k fix_sequence =
    ok (is_sorted (positions k.order_ids (given_or (get k.vehicle_id seen) [])))
honours p s carriers seen k force_deploy = ok (deployed k.vehicle_id seen)
honours p s carriers seen k forbid_deploy = ok (not (deployed k.vehicle_id seen))
honours p s carriers seen k pin_depot = from_depot p (get k.order_id carriers) k.depot_id
honours p s carriers seen k freeze_until = do
  horizon ← or_raise k.instant value_error
  ok (is_empty (early s.routes horizon (pinned p.locks)))

abbrev pub on_lock : Lock → Violation
on_lock k = record { invariant = inv_8; vehicle_id = k.vehicle_id; order_id = k.order_id }

unfoldable pub check_one_lock :
    Problem → Solution → List (String × String) → Sequences → Lock → Result (List Violation)
unfolding honours
check_one_lock p s carriers seen k = do
  honoured ← honours p s carriers seen k k.kind
  ok (fails_if (not honoured) (on_lock k))

unfoldable pub check_locks : Problem → Solution → Result (List Violation)
unfolding check_one_lock route_of sequences
check_locks p s = each (check_one_lock p s (route_of s.routes []) (sequences s.routes [])) p.locks
