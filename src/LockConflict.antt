-- ===== src/LockConflict.antt =====
-- vrp/locks.py: one irreducible set of locks that together leave an order without a vehicle.
pub mod Fewer
pub mod Deletion
pub mod Fleets
pub mod Stages
pub mod Judged
pub mod Diagnosed
pub mod Irreducible
use osrm_microservice.Prelude.{
  Bool, true, false, ◌&&◌, not, Option, none, some, List, [], ◌∷◌, ◌++◌, any, if◌then◌else◌, Result,
  ok, ◌>>=◌,
}
use osrm_microservice.Model.Order.{is_empty}
use osrm_microservice.Model.Problem.{Problem}
use osrm_microservice.Model.Instruction.{Lock}
use osrm_microservice.Diagnose.{grounds, is_forbidden, preflight}

-- `_replace_locks`, which builds the problem without couplings and profiles.
abbrev pub replace_locks : Problem → List Lock → Problem
replace_locks p locks = record p {
  locks = locks;
  synchronisations = [];
  speed_profile = none;
  speed_profiles = none;
}

-- `_deployable`
unfoldable pub is_deployable : Problem → Bool
is_deployable p =
    if not (any (λ k. grounds k.kind) p.locks)
    then true
    else any (λ v. not (is_forbidden p.locks v)) p.vehicles

unfoldable pub is_feasible_under_locks : Problem → Result Bool
unfolding is_deployable
is_feasible_under_locks p =
    if not (is_deployable p) then ok false else do findings ← preflight p; ok (is_empty findings)

-- The deletion filter: the locks kept so far, and those still to try. A lock is one object, and a
-- tuple of locks holds it once.
unfoldable pub drop_needless :
    (List Lock → Result Bool) → List Lock → List Lock → Result (List Lock)
drop_needless feasible kept [] = ok kept
drop_needless feasible kept (k ∷ rest) = do
  without ← feasible (kept ++ rest)
  elim without [
    | false ↦ drop_needless feasible kept rest
    | true ↦ drop_needless feasible (kept ++ k ∷ []) rest
  ]

unfoldable pub minimal_conflict : Problem → Result (List Lock)
unfolding is_feasible_under_locks drop_needless
minimal_conflict p = do
  feasible ← is_feasible_under_locks p
  elim feasible [
    | true ↦ ok []
    | false ↦ do
      unlocked ← is_feasible_under_locks (replace_locks p [])
      elim unlocked [
        | false ↦ ok []
        | true ↦ drop_needless (λ ks. is_feasible_under_locks (replace_locks p ks)) [] p.locks
      ]
  ]
