-- ===== src/Diagnose.antt =====
-- vrp/diagnose.py: why no vehicle can serve an order on its own. The sentence of a finding is not
-- modelled.
use osrm_microservice.Prelude.{
  Bool, true, false, ◌&&◌, ◌||◌, not, ltb, Option, none, some, List, [], ◌∷◌, ◌++◌, map, all, any,
  keep, length, if◌then◌else◌, String, str_eq, lookup, member, ℤ, pos, ◌+ℤ◌, leb_ℤ, ltb_ℤ, max_ℤ,
  greatest, Result, ok, value_error, or_raise, ◌>>=◌,
}
use osrm_microservice.Hos.Rules.{remaining_drive, init_state, rules_for}
use osrm_microservice.Model.Window.{TimeWindow, hard_windows}
use osrm_microservice.Model.Stop.{Location, StopSpec, Quantities, is_given}
use osrm_microservice.Model.Order.{Order, is_empty}
use osrm_microservice.Model.Vehicle.{Vehicle, ends_at}
use osrm_microservice.Model.Matrix.{duration, is_reachable}
use osrm_microservice.Model.Problem.{Problem, location, position}
use osrm_microservice.Model.Service.{may_enter, has_skills_for, delivery_or_pickup}
use osrm_microservice.Model.Instruction.{
  Lock, LockKind, pin_order_to_vehicle, forbid_order_on_vehicle, pin_depot, forbid_deploy,
}
use osrm_microservice.Evaluator.Legal.{fits}
use osrm_microservice.Verify.Locks.{same_text}

-- The keys of `REASONS`.
pub data Reason : Type 0 where
  no_eligible_vehicle capacity_exceeded time_window_unreachable release_after_window : Reason
  duty_limit incompatible_only fleet_exhausted dropped_by_prize lock_conflict : Reason
  depot_stockout : Reason

pub record Finding : Type 0 where
  pub order_id : String
  pub code : Reason

-- `any(f(x) for x in xs)`, where `f` may raise; it stops at the first that holds.
abbrev pub any_result {ℓ} : {A : Type ℓ} → (A → Result Bool) → List A → Result Bool
any_result f [] = ok false
any_result f (x ∷ xs) = do holds ← f x; elim holds [ true ↦ ok true | false ↦ any_result f xs ]

abbrev pub grounds : LockKind → Bool
grounds forbid_deploy = true
grounds _ = false

-- `vehicle.id in forbidden`
unfoldable pub is_forbidden : List Lock → Vehicle → Bool
is_forbidden locks v = any (λ k. grounds k.kind && same_text k.vehicle_id (some v.id)) locks

-- What one lock on the order leaves of a fleet.
abbrev pub allows : Lock → LockKind → Vehicle → Bool
allows k pin_order_to_vehicle v = same_text (some v.id) k.vehicle_id
allows k forbid_order_on_vehicle v = not (same_text (some v.id) k.vehicle_id)
allows k pin_depot v = same_text (some v.start_location_id) k.depot_id
allows k _ v = true

unfoldable pub narrow : Order → List Lock → List Vehicle → List Vehicle
narrow o [] fleet = fleet
narrow o (k ∷ locks) fleet =
    narrow o locks
      (if same_text k.order_id (some o.id) then keep (allows k k.kind) fleet else fleet)

abbrev pub may_take : List Lock → Order → Location → Vehicle → Bool
may_take locks o site v = has_skills_for v o && not (is_forbidden locks v) && may_enter v site

-- `order.delivery or order.pickup`
abbrev pub stop_for : Order → Result StopSpec
stop_for o = or_raise (delivery_or_pickup o) value_error

-- `_eligible`
unfoldable pub eligible : Problem → Order → Result (List Vehicle)
unfolding narrow
eligible p o = do
  stop ← stop_for o
  site ← location p stop.location_id
  ok (narrow o p.locks (keep (may_take p.locks o site) p.vehicles))

abbrev pub narrows : LockKind → Bool
narrows pin_order_to_vehicle = true
narrows pin_depot = true
narrows forbid_order_on_vehicle = true
narrows _ = false

-- `_pinned`
unfoldable pub is_pinned : Problem → Order → Bool
is_pinned p o =
    any (λ k. grounds k.kind) p.locks
    || any (λ k. same_text k.order_id (some o.id) && narrows k.kind) p.locks

unfoldable pub reaches_from : Problem → Order → Vehicle → ℤ → StopSpec → Result Bool
reaches_from p o v not_before stop = do
  start ← location p v.start_location_id
  destination ← location p stop.location_id
  passable ← is_reachable p.matrix (position start) (position destination)
  elim passable [
    | false ↦ ok false
    | true ↦ do
      taken ← duration p.matrix (position start) (position destination)
      let arrival = max_ℤ v.shift.start (max_ℤ o.release_time not_before) +ℤ taken
      ok (any (λ w. leb_ℤ arrival w.end) (hard_windows stop.time_windows))
  ]

-- `_reachable`; soft windows are no walls.
unfoldable pub can_reach : Problem → Order → ℤ → Vehicle → Result Bool
unfolding reaches_from
can_reach p o not_before v = do
  stop ← stop_for o
  if is_empty (hard_windows stop.time_windows) then ok true else reaches_from p o v not_before stop

unfoldable pub duty_under : Problem → Order → Vehicle → String → Result Bool
duty_under p o v name = do
  stop ← stop_for o
  start ← location p v.start_location_id
  destination ← location p stop.location_id
  home ← location p (ends_at v)
  out ← is_reachable p.matrix (position start) (position destination)
  elim out [
    | false ↦ ok false
    | true ↦ do
      back ← is_reachable p.matrix (position destination) (position home)
      elim back [
        | false ↦ ok false
        | true ↦ do
          there ← duration p.matrix (position start) (position destination)
          return_trip ← duration p.matrix (position destination) (position home)
          rules ← rules_for name
          ok (
              leb_ℤ (there +ℤ return_trip)
                (pos (remaining_drive rules (init_state v.initial_state))))
      ]
  ]

-- `_duty_fits`
unfoldable pub duty_fits : Problem → Order → Vehicle → Result Bool
unfolding duty_under
duty_fits p o v = elim v.hos_rules [
  | none ↦ ok true
  | some name ↦ if is_given name then duty_under p o v name else ok true
]

abbrev pub class_given : Option String → List String
class_given none = []
class_given (some c) = if is_given c then c ∷ [] else []

abbrev pub forbids_class : Option String → List String → Bool
forbids_class c classes = any (λ x. member x classes) (class_given c)

unfoldable pub is_enemy : Order → Order → Bool
is_enemy o other =
    not (str_eq other.id o.id)
    && not (is_empty (class_given other.order_class))
    && (forbids_class other.order_class o.incompatible_with
        || forbids_class o.order_class other.incompatible_with)

-- `_forced_together_with_an_enemy`
unfoldable pub forced_together : Problem → Order → List Vehicle → Bool
unfolding is_enemy
forced_together p o usable =
    if not (any (λ other. not (is_empty (class_given other.order_class))) p.orders)
      || ltb 1 (length usable)
    then false
    else any (is_enemy o) p.orders

abbrev pub covers_amount : Option ℤ → ℤ → Bool
covers_amount none wanted = true
covers_amount (some held) wanted = leb_ℤ wanted held

-- A depot without stock is not constrained.
abbrev pub holds : Quantities → Option Quantities → Bool
holds wanted none = true
holds wanted (some stock) = is_empty stock || all (λ e. covers_amount (lookup e.0 stock) e.1) wanted

unfoldable pub depot_holds : Problem → Order → Vehicle → Result Bool
depot_holds p o v = do home ← location p v.start_location_id; ok (holds o.quantities home.inventory)

abbrev pub released_late : Order → List TimeWindow → Bool
released_late o hard =
    not (is_empty hard) && ltb_ℤ (greatest (map (λ w. w.end) hard)) o.release_time

-- The checks from the release on, on the vehicles that have room.
unfoldable pub judge_usable : Problem → Order → List Vehicle → Result (Option Reason)
unfolding can_reach duty_fits forced_together
judge_usable p o usable = do
  reached ← any_result (can_reach p o (pos 0)) usable
  elim reached [
    | false ↦ ok (some time_window_unreachable)
    | true ↦ do
      rested ← any_result (duty_fits p o) usable
      elim rested [
        | false ↦ ok (some duty_limit)
        | true ↦ ok (if forced_together p o usable then some incompatible_only else none)
      ]
  ]

unfoldable pub judge_stocked : Problem → Order → List Vehicle → Result (Option Reason)
unfolding judge_usable depot_holds
judge_stocked p o fleet = do
  stocked ← any_result (depot_holds p o) fleet
  elim stocked [
    | false ↦ ok (some depot_stockout)
    | true ↦ do
      stop ← stop_for o
      if released_late o (hard_windows stop.time_windows)
          then ok (some release_after_window)
          else judge_usable p o (keep (λ v. fits v o.quantities) fleet)
  ]

-- The first check that fails, by the fleet that may take the order. `_stocked_out` looks at the
-- depots in their sorted order, which only matters for the error that a missing one raises.
unfoldable pub judge_fleet : Problem → Order → List Vehicle → Result (Option Reason)
unfolding judge_stocked
judge_fleet p o fleet =
    if is_empty fleet
    then ok (some no_eligible_vehicle)
    else if not (any (λ v. fits v o.quantities) fleet)
    then ok (some capacity_exceeded)
    else judge_stocked p o fleet

unfoldable pub diagnose_order : Problem → Order → Result (Option Reason)
unfolding eligible judge_fleet
diagnose_order p o = do fleet ← eligible p o; judge_fleet p o fleet

-- For an order that a lock narrows, the reason is the lock.
abbrev pub report : Problem → Order → Option Reason → List Finding
report p o none = []
report p o (some code) =
    record { order_id = o.id; code = if is_pinned p o then lock_conflict else code } ∷ []

unfoldable pub preflight_from : Problem → List Order → Result (List Finding)
unfolding diagnose_order is_pinned
preflight_from p [] = ok []
preflight_from p (o ∷ os) = do
  reason ← diagnose_order p o
  more ← preflight_from p os
  ok (report p o reason ++ more)

-- `preflight`; the orders of a problem have different identifiers.
unfoldable pub preflight : Problem → Result (List Finding)
unfolding preflight_from
preflight p = preflight_from p p.orders
