-- ===== src/Examples/Conflicts.antt =====
-- A town with two vans, and locks that leave its order without either.
use osrm_microservice.Prelude.{
  is_subset, amount, greatest, ◌+ℤ◌, max_ℤ, ◌≡◌, ◌≢◌, refl, false, none, some, [], ◌∷◌, String, ok,
}
use osrm_microservice.Model.Problem.{Problem, location}
use osrm_microservice.Model.Instruction.{
  Lock, LockKind, pin_order_to_vehicle, forbid_order_on_vehicle, forbid_deploy,
}
use osrm_microservice.Model.Service.{has_skills_for, may_enter}
use osrm_microservice.Model.Matrix.{is_reachable, duration}
use osrm_microservice.Evaluator.Legal.{fits}
use osrm_microservice.Diagnose.{is_forbidden, preflight}
use osrm_microservice.LockConflict.{replace_locks, is_feasible_under_locks, minimal_conflict}
use osrm_microservice.LockConflict.Irreducible.{minimal_conflict-irreducible}
use osrm_microservice.Examples.Town.{town, van}

abbrev lock : LockKind → String → Lock
lock kind id = record {
  kind = kind;
  order_id = some "parcel";
  vehicle_id = some id;
  order_ids = [];
  depot_id = none;
  instant = none;
}

abbrev pin : Lock
pin = lock pin_order_to_vehicle "van"

abbrev forbid : Lock
forbid = lock forbid_order_on_vehicle "van"

abbrev ground_lorry : Lock
ground_lorry = lock forbid_deploy "lorry"

abbrev locked : Problem
locked = record town {
  vehicles = van ∷ record van { id = "lorry" } ∷ [];
  locks = pin ∷ forbid ∷ ground_lorry ∷ [];
}

-- The pin is not needed for the conflict.
found : minimal_conflict locked ≡ ok (forbid ∷ ground_lorry ∷ [])
unfolding minimal_conflict is_forbidden preflight location has_skills_for is_subset may_enter fits
    amount greatest is_reachable duration ◌+ℤ◌ max_ℤ
found = refl

minimal_conflict-irreducible_example :
    (is_feasible_under_locks (replace_locks locked (forbid ∷ ground_lorry ∷ [])) ≡ ok false)
    × (is_feasible_under_locks (replace_locks locked (forbid ∷ [])) ≢ ok false)
minimal_conflict-irreducible_example =
    minimal_conflict-irreducible locked (forbid ∷ ground_lorry ∷ []) (forbid ∷ []) ground_lorry []
      found refl
