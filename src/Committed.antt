-- ===== src/Committed.antt =====
-- vrp/committed.py: what may no longer be moved, and the locks that say so.
pub mod Prefix
pub mod Honoured
use osrm_microservice.Prelude.{
  Bool, true, false, ◌&&◌, ◌||◌, not, Option, none, some, given_or, List, [], ◌∷◌, ◌++◌, map, keep,
  if◌then◌else◌, String, str_eq, lookup, insert, member, ℤ, pos, ltb_ℤ, leb_ℤ, Result, ok,
  value_error, require, ◌>>◌, ◌>>=◌,
}
use osrm_microservice.Model.Order.{is_empty}
use osrm_microservice.Model.Problem.{Problem}
use osrm_microservice.Model.Instruction.{Lock, pin_order_to_vehicle, fix_route_prefix, freeze_until}
use osrm_microservice.Model.Plan.{Step, Route, Solution, named}

-- What telematics says: the stops completed by each vehicle, and the one it drives to.
pub record Execution : Type 0 where
  pub completed : List (String × List String)
  pub en_route : List (String × String)

abbrev driving_to : Bool → Option String → List String
driving_to true (some i) = i ∷ []
driving_to _ _ = []

-- The van has left its last stop before `now`.
abbrev has_left : Option ℤ → ℤ → Bool
has_left none now = false
has_left (some departure) now = ltb_ℤ departure now

-- The loop over the steps; `left` is the departure from the last stop.
unfoldable pub prefix_from : ℤ → Bool → Option ℤ → List Step → List String
prefix_from now include_en_route left [] = []
prefix_from now include_en_route left (step ∷ steps) = elim step.order_id [
  | none ↦ prefix_from now include_en_route (some step.departure) steps
  | some i ↦
      let rest = prefix_from now include_en_route (some step.departure) steps in
      if leb_ℤ step.start_service now
      then i ∷ rest
      else if include_en_route && has_left left now
      then i ∷ []
      else []
]

-- `committed_prefix`; what was executed wins over the clock of the plan.
unfoldable pub committed_prefix : Route → ℤ → Bool → Option Execution → List String
unfolding prefix_from
committed_prefix r now include_en_route none = prefix_from now include_en_route none r.steps
committed_prefix r now include_en_route (some e) =
    given_or (lookup r.vehicle_id e.completed) []
    ++ driving_to include_en_route (lookup r.vehicle_id e.en_route)

abbrev pub prefix_lock : String → List String → Lock
prefix_lock v ids = record {
  kind = fix_route_prefix;
  order_id = none;
  vehicle_id = some v;
  order_ids = ids;
  depot_id = none;
  instant = none;
}

abbrev pub freeze_lock : ℤ → Lock
freeze_lock now = record {
  kind = freeze_until;
  order_id = none;
  vehicle_id = none;
  order_ids = [];
  depot_id = none;
  instant = some now;
}

-- A vehicle with nothing committed gets no lock.
abbrev pub lock_if_any : String → List String → List Lock
lock_if_any v [] = []
lock_if_any v (i ∷ ids) = prefix_lock v (i ∷ ids) ∷ []

unfoldable pub prefix_locks : List Route → ℤ → List Lock
unfolding committed_prefix
prefix_locks [] now = []
prefix_locks (r ∷ rs) now =
    lock_if_any r.vehicle_id (committed_prefix r now true none) ++ prefix_locks rs now

unfoldable pub commit_locks : Solution → ℤ → Result (List Lock)
unfolding prefix_locks
commit_locks s now = do
  require (leb_ℤ (pos 0) now) value_error
  ok (prefix_locks s.routes now ++ freeze_lock now ∷ [])

abbrev pin : String → String → Lock
pin v i = record {
  kind = pin_order_to_vehicle;
  order_id = some i;
  vehicle_id = some v;
  order_ids = [];
  depot_id = none;
  instant = none;
}

unfoldable pub pins_of : String → List Step → List Lock
pins_of v [] = []
pins_of v (step ∷ steps) = map (pin v) (named step.order_id) ++ pins_of v steps

-- The vehicles that do not come keep nothing pinned.
unfoldable pub loading_locks : List Route → List String → List Lock
unfolding pins_of
loading_locks [] absent = []
loading_locks (r ∷ rs) absent =
    let rest = loading_locks rs absent in
    if member r.vehicle_id absent then rest else pins_of r.vehicle_id r.steps ++ rest

unfoldable pub own : String → List Step → List (String × String) → List (String × String)
own v [] owners = owners
own v (step ∷ steps) owners = elim step.order_id [
  | none ↦ own v steps owners
  | some i ↦ own v steps (insert i v owners)
]

unfoldable pub owners_from : List Route → List (String × String) → List (String × String)
unfolding own
owners_from [] owners = owners
owners_from (r ∷ rs) owners = owners_from rs (own r.vehicle_id r.steps owners)

-- `_owners`
unfoldable pub owners : Solution → List (String × String)
unfolding owners_from
owners s = owners_from s.routes []

abbrev pub is_owner : Option String → String → Bool
is_owner none v = false
is_owner (some u) v = str_eq u v

-- An order with the vehicle that had it, and the one that has it now.
abbrev pub Moves : Type 0
Moves = List (String × (String × Option String))

unfoldable pub moved_between : List (String × String) → List (String × String) → Moves
moved_between was now =
    map (λ e. (e.0, (e.1, lookup e.0 now))) (keep (λ e. not (is_owner (lookup e.0 now) e.1)) was)

unfoldable pub moved_since : Solution → Solution → Moves
unfolding moved_between owners
moved_since before after = moved_between (owners before) (owners after)
