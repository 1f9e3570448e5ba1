-- ===== src/Verify/Route/Clock.antt =====
-- The clock, the windows and the load at one step, as `_check_route` of vrp/verify/verifier.py
-- judges them, on the steps of `build_timeline`.
use osrm_microservice.Prelude.{
  arith, ◌≡◌, refl, subst, if◌then◌else◌, Bool, true, false, ◌&&◌, ◌||◌, not, Option, none, some,
  List, [], ◌∷◌, All, String, lookup, amount, ℤ, pos, ◌+ℤ◌, ◌≤ℤ◌, eqb_ℤ, ≤ℤ→ltb-false, Result, ok,
  value_error, or_raise, ok-injective, >>=-eq-ok, any,
}
use osrm_microservice.Model.Window.{TimeWindow, contains, hard_windows}
use osrm_microservice.Model.Stop.{Quantities, StopSpec}
use osrm_microservice.Model.Order.{Order, is_some, is_empty}
use osrm_microservice.Model.Vehicle.{Vehicle}
use osrm_microservice.Model.Problem.{Problem, order}
use osrm_microservice.Model.Plan.{Step, StepType, is_delivery}
use osrm_microservice.Model.Service.{delivery_or_pickup}
use osrm_microservice.Evaluator.Timeline.Joined.{Serves, idle, busy}
use osrm_microservice.Evaluator.Metrics.{windows_of}
use osrm_microservice.Evaluator.Legal.{in_hard_window}
use osrm_microservice.Verify.Route.{
  stop_judged, windows_for, service_if, service_of, clock_violations, load_violations, above,
  check_at_step,
}

same_int : (a b : ℤ) → a ≡ b → eqb_ℤ a b ≡ true
same_int a b e = subst (λ x. eqb_ℤ a x ≡ true) e (ground arith)

-- A step of the type that the evaluator gives it is judged by the stop that the evaluator served.
judged_as_served :
    (o : Order) (type : StepType)
    → is_delivery type ≡ is_some o.delivery
    → stop_judged o type ≡ delivery_or_pickup o
judged_as_served o type e = rw e (served_stop o.delivery o.pickup)
  where
    served_stop :
        (d q : Option StopSpec)
        → (if is_some d then d else q) ≡ (elim d [ some x ↦ some x | none ↦ q ])
    served_stop none q = refl
    served_stop (some x) q = refl

module _ (p : Problem) (v : Vehicle) (i : String) where
  abbrev windows_then : StopSpec → Result (List TimeWindow)
  windows_then stop = ok stop.time_windows

  windows_of-stop :
      (step : Step) (o : Order) (ws : List TimeWindow)
      → step.order_id ≡ some o.id
      → order p o.id ≡ ok o
      → windows_of p step ≡ ok ws
      → (stop : StopSpec) × (delivery_or_pickup o ≡ some stop) × (stop.time_windows ≡ ws)
  unfolding windows_of
  windows_of-stop step o ws names known h =
      let h₀ = rw (names, known) at h in
      let (stop, e, same) =
        >>=-eq-ok (or_raise (delivery_or_pickup o) value_error) windows_then h₀ in
      (stop, raised (delivery_or_pickup o) stop e, ok-injective same)
    where
      raised :
          (s : Option StopSpec) (stop : StopSpec) → or_raise s value_error ≡ ok stop → s ≡ some stop
      raised none stop e = cc
      raised (some x) stop e = cc

  module _ (step : Step) (ws : List TimeWindow) where
    in_window :
        in_hard_window ws step.start_service ≡ true
        → (not (is_empty (hard_windows ws))
            && not (any (λ w. contains w step.start_service) (hard_windows ws)))
          ≡ false
    unfolding in_hard_window
    in_window h =
        excluded (is_empty (hard_windows ws))
          (any (λ w. contains w step.start_service) (hard_windows ws)) h
      where
        excluded : (a b : Bool) → (a || b) ≡ true → (not a && not b) ≡ false
        excluded true b h = refl
        excluded false true h = refl
        excluded false false h = cc

    -- What the problem says of the step, as the verifier reads it, and what it finds.
    pub clock-Serves :
        Serves p v step
        → windows_of p step ≡ ok ws
        → in_hard_window ws step.start_service ≡ true
        → check_at_step p i v step ≡ ok (load_violations i v step step.load_after)
    unfolding check_at_step service_of windows_for clock_violations service_if windows_of
    clock-Serves (idle names after) promised punctual =
        rw (names, ≤ℤ→ltb-false step.arrival step.start_service after) refl
    clock-Serves (busy o l service names known type found serviced after leaves) promised punctual =
        let (stop, stops, same) = windows_of-stop step o ws names known promised in
        rw
          (
            names,
            known,
            judged_as_served o step.type type,
            stops,
            found,
            serviced,
            same,
            ≤ℤ→ltb-false step.arrival step.start_service after,
            same_int step.departure (step.start_service +ℤ service) leaves,
            in_window punctual,
          )
          refl

not_above :
    (limits : Quantities) (k : String) (a : ℤ)
    → a ≤ℤ amount k limits
    → above (lookup k limits) a ≡ false
unfolding amount
not_above limits k a h = stated (lookup k limits) h
  where
    stated : (o : Option ℤ) → a ≤ℤ (elim o [ some b ↦ b | none ↦ pos 0 ]) → above o a ≡ false
    stated none h = refl
    stated (some b) h = ≤ℤ→ltb-false a b h

pub load_violations-none :
    (i : String) (v : Vehicle) (step : Step) (load : Quantities)
    → All (λ e. pos 0 ≤ℤ e.1) load
    → All (λ e. e.1 ≤ℤ amount e.0 v.capacities) load
    → load_violations i v step load ≡ []
unfolding load_violations
load_violations-none i v step [] low high = refl
load_violations-none i v step (e ∷ load) low high =
    rw (≤ℤ→ltb-false (pos 0) e.1 low.0, not_above v.capacities e.0 e.1 high.0)
      (load_violations-none i v step load low.1 high.1)
