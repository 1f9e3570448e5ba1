-- ===== src/Verify.antt =====
-- vrp/verify/verifier.py: the independent verifier, `verify`, over its checks.
pub mod Findings
pub mod Route
pub mod Coverage
pub mod Compatibility
pub mod Depots
pub mod Battery
pub mod Hours
pub mod Coupling
pub mod Locks
pub mod Objective
use osrm_microservice.Prelude.{
  Bool, true, false, not, Option, none, some, List, [], ◌∷◌, ◌++◌, any, if◌then◌else◌, String,
  Result, ok, ◌>>=◌,
}
use osrm_microservice.Model.Stop.{is_given}
use osrm_microservice.Model.Order.{is_empty}
use osrm_microservice.Model.Problem.{Problem}
use osrm_microservice.Model.Plan.{Solution}
use osrm_microservice.Verify.Findings.{Invariant, inv_7, inv_8, inv_13, Violation, Report, each}
use osrm_microservice.Verify.Route.{check_route}
use osrm_microservice.Verify.Coverage.{check_coverage}
use osrm_microservice.Verify.Compatibility.{check_compatibility, check_reloads}
use osrm_microservice.Verify.Depots.{check_docks, check_inventory}
use osrm_microservice.Verify.Battery.{check_battery}
use osrm_microservice.Verify.Hours.{check_hours_of_service}
use osrm_microservice.Verify.Coupling.{check_synchronisation, check_release_times, check_ride_times}
use osrm_microservice.Verify.Locks.{check_locks}
use osrm_microservice.Verify.Objective.{check_objective}

abbrev names_rules : Option String → Bool
names_rules none = false
names_rules (some name) = is_given name

abbrev has_stock {ℓ} : {A : Type ℓ} → Option (List A) → Bool
has_stock none = false
has_stock (some stock) = not (is_empty stock)

abbrev unless : Bool → Invariant → List Invariant
unless true i = []
unless false i = i ∷ []

-- The invariants without a subject that `verify` sets before any check.
unfoldable pub without_subject : Problem → List Invariant
without_subject p =
    unless (any (λ v. names_rules v.hos_rules) p.vehicles) inv_7
    ++ unless (not (is_empty p.locks)) inv_8
    ++ unless (any (λ l. has_stock l.inventory) p.locations) inv_13

unfoldable pub verify : Problem → Solution → Result Report
unfolding without_subject
verify p s = do
  timelines ←
      each
        (λ r. do
          at_route ← check_route p r
          at_hours ← check_hours_of_service p r
          ok (at_route ++ at_hours))
        s.routes
  loads ←
      each
        (λ r. do
          compatible ← check_compatibility p r
          reloaded ← check_reloads p r
          charged ← check_battery p r
          ok (compatible ++ reloaded ++ charged))
        s.routes
  docked ← check_docks p s
  stocked ← check_inventory p s
  locked ← check_locks p s
  objective ← check_objective p s
  let rides = check_ride_times p s
  let releases = check_release_times p s
  let meetings = check_synchronisation p s
  ok (record {
    violations =
        check_coverage p s
        ++ timelines
        ++ loads
        ++ docked
        ++ stocked
        ++ rides.0
        ++ releases.0
        ++ meetings.0
        ++ locked
        ++ objective;
    not_applicable = without_subject p ++ rides.1 ++ releases.1 ++ meetings.1;
  })
