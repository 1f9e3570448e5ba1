-- ===== src/Verify/Coupling.antt =====
-- `_check_synchronisation`, `_check_release_times` and `_check_ride_times` of
-- vrp/verify/verifier.py (INV-15, INV-17, INV-14).
use osrm_microservice.Prelude.{
  Bool, false, Option, none, some, List, [], ◌∷◌, ◌++◌, if◌then◌else◌, String, str_eq, lookup,
  insert, ℤ, pos, ◌-ℤ◌, ltb_ℤ, eqb_ℤ,
}
use osrm_microservice.Model.Order.{Order, is_empty}
use osrm_microservice.Model.Problem.{Problem}
use osrm_microservice.Model.Instruction.{Synchronisation, SyncKind, transfer, convoy}
use osrm_microservice.Model.Plan.{Step, Route, Solution, is_pickup, is_delivery}
use osrm_microservice.Verify.Findings.{
  Violation, Invariant, inv_14, inv_15, inv_17, fails_if, on_step, gather,
}

abbrev pub Served : Type 0
Served = List (String × (String × Step))

-- The last step that serves each order, and its vehicle.
unfoldable pub note_step : String → Step → Served → Served
note_step v step served = elim step.order_id [ none ↦ served | some i ↦ insert i (v, step) served ]

unfoldable pub note_steps : String → List Step → Served → Served
unfolding note_step
note_steps v [] served = served
note_steps v (step ∷ steps) served = note_steps v steps (note_step v step served)

unfoldable pub served_by : List Route → Served → Served
unfolding note_steps
served_by [] served = served
served_by (r ∷ rs) served = served_by rs (note_steps r.vehicle_id r.steps served)

-- `abs(a)`
abbrev pub abs_ℤ : ℤ → ℤ
abs_ℤ a = if ltb_ℤ a (pos 0) then pos 0 -ℤ a else a

abbrev pub gap_between : SyncKind → Step → Step → ℤ
gap_between transfer first second = second.start_service -ℤ first.departure
gap_between convoy first second = abs_ℤ (second.start_service -ℤ first.start_service)

abbrev pub exceeds : ℤ → Option ℤ → Bool
exceeds a none = false
exceeds a (some limit) = ltb_ℤ limit a

abbrev pub late_meeting : String → String → Violation
late_meeting v i = record { invariant = inv_15; vehicle_id = some v; order_id = some i }

unfoldable pub meeting : Synchronisation → String × Step → String × Step → List Violation
meeting sync (first_vehicle, first) (second_vehicle, second) =
    if str_eq first_vehicle second_vehicle
    then late_meeting first_vehicle sync.second ∷ []
    else fails_if (ltb_ℤ (gap_between sync.kind first second) sync.min_gap)
        (late_meeting second_vehicle sync.second)
      ++ fails_if (exceeds (gap_between sync.kind first second) sync.max_gap)
          (late_meeting second_vehicle sync.second)

-- An end that is not planned is left to INV-1.
abbrev pub if_served :
    Synchronisation → Option (String × Step) → Option (String × Step) → List Violation
if_served sync (some first) (some second) = meeting sync first second
if_served sync _ _ = []

unfoldable pub check_sync : Served → Synchronisation → List Violation
unfolding meeting
check_sync served sync = if_served sync (lookup sync.first served) (lookup sync.second served)

-- The violations, and whether there was no subject.
abbrev pub Verdict : Type 0
Verdict = List Violation × List Invariant

unfoldable pub check_synchronisation : Problem → Solution → Verdict
unfolding check_sync served_by
check_synchronisation p s =
    if is_empty p.synchronisations
    then ([], inv_15 ∷ [])
    else (gather (check_sync (served_by s.routes [])) p.synchronisations, [])

-- A comprehension into a dict with the orders' identifiers as keys.
unfoldable pub released : List Order → List (String × ℤ) → List (String × ℤ)
released [] times = times
released (o ∷ os) times =
    released os (if eqb_ℤ o.release_time (pos 0) then times else insert o.id o.release_time times)

abbrev pub due_for : Option String → List (String × ℤ) → Option ℤ
due_for none times = none
due_for (some i) times = lookup i times

abbrev pub is_early : ℤ → Option ℤ → Bool
is_early departure none = false
is_early departure (some time) = ltb_ℤ departure time

unfoldable pub early_release : List (String × ℤ) → Route → List Violation
early_release times r = elim r.steps [
  | [] ↦ []
  | first ∷ later ↦
      gather
        (λ step.
          fails_if (is_early first.departure (due_for step.order_id times))
            (on_step inv_17 r.vehicle_id step))
        r.steps
]

unfoldable pub check_release_times : Problem → Solution → Verdict
unfolding released early_release
check_release_times p s =
    let times = released p.orders [] in
    if is_empty times then ([], inv_17 ∷ []) else (gather (early_release times) s.routes, [])

unfoldable pub ride_bounds : List Order → List (String × ℤ) → List (String × ℤ)
ride_bounds [] bounds = bounds
ride_bounds (o ∷ os) bounds = elim o.max_ride_time [
  | none ↦ ride_bounds os bounds
  | some t ↦ ride_bounds os (insert o.id t bounds)
]

-- `aboard.pop(order_id)`, without the value.
unfoldable pub remove : String → List (String × ℤ) → List (String × ℤ)
remove i [] = []
remove i (e ∷ es) = if str_eq e.0 i then es else e ∷ remove i es

abbrev pub rides_too_long : ℤ → ℤ → Option ℤ → Bool
rides_too_long arrival allowed none = false
rides_too_long arrival allowed (some since) = ltb_ℤ allowed (arrival -ℤ since)

-- A step of an order that may be aboard for `allowed` seconds.
unfoldable pub ride_step :
    String → String → ℤ → Step → List (String × ℤ) → List (String × ℤ) × List Violation
unfolding remove
ride_step v i allowed step aboard =
    if is_pickup step.type
    then (insert i step.departure aboard, [])
    else if is_delivery step.type
    then (
      remove i aboard,
      fails_if (rides_too_long step.arrival allowed (lookup i aboard)) (on_step inv_14 v step),
    )
    else (aboard, [])

abbrev pub bounded : Option String → List (String × ℤ) → Option (String × ℤ)
bounded none bounds = none
bounded (some i) bounds = elim (lookup i bounds) [ none ↦ none | some t ↦ some (i, t) ]

unfoldable pub ride_steps :
    String → List (String × ℤ) → List Step → List (String × ℤ) → List Violation
unfolding ride_step
ride_steps v bounds [] aboard = []
ride_steps v bounds (step ∷ steps) aboard = elim (bounded step.order_id bounds) [
  | none ↦ ride_steps v bounds steps aboard
  | some (i, allowed) ↦
      (ride_step v i allowed step aboard).1
      ++ ride_steps v bounds steps (ride_step v i allowed step aboard).0
]

unfoldable pub check_ride_times : Problem → Solution → Verdict
unfolding ride_bounds ride_steps
check_ride_times p s =
    let bounds = ride_bounds p.orders [] in
    if is_empty bounds
    then ([], inv_14 ∷ [])
    else (gather (λ r. ride_steps r.vehicle_id bounds r.steps []) s.routes, [])
