-- ===== src/Evaluator/Legal.antt =====
-- `route_is_legal` of vrp/evaluator.py: whether a vehicle could drive a sequence.
pub mod Judged
pub mod Windows
pub mod Kept
use osrm_microservice.Prelude.{
  ℕ, ◌≡◌, refl, sym, subst, arith, ◌⊎◌, inl, inr, Bool, true, false, ◌&&◌, ◌||◌, not, Bool-cases,
  Option, none, some, List, [], ◌∷◌, if◌then◌else◌, any, all, All, keep, String, amount, ℤ, ◌≤ℤ◌,
  leb_ℤ, ltb_ℤ, Result, ok, err, value_error, or_raise, ok-injective, >>=-eq-ok, ◌>>=◌,
}
use osrm_microservice.Hos.Rules.{rules_for}
use osrm_microservice.Hos.Schedule.{schedule_route}
use osrm_microservice.Model.Window.{TimeWindow, contains, hard_windows}
use osrm_microservice.Model.Stop.{Quantities, is_given}
use osrm_microservice.Model.Order.{Order, is_empty}
use osrm_microservice.Model.Vehicle.{Vehicle}
use osrm_microservice.Model.Problem.{Problem, vehicle}
use osrm_microservice.Model.Plan.{Step}
use osrm_microservice.Evaluator.Timeline.{build_timeline}
use osrm_microservice.Evaluator.Metrics.{windows_of}

-- No dimension of the load is above the capacity; a capacity that is not stated is zero.
unfoldable pub fits : Vehicle → Quantities → Bool
fits v load = all (λ e. leb_ℤ e.1 (amount e.0 v.capacities)) load

-- With hard windows, service starts in one of them.
unfoldable pub in_hard_window : List TimeWindow → ℤ → Bool
in_hard_window ws instant =
    is_empty (hard_windows ws) || any (λ w. contains w instant) (hard_windows ws)

-- One round of the loop: `false` ends it.
unfoldable pub step_is_legal : Problem → Vehicle → Step → Result Bool
unfolding fits in_hard_window
step_is_legal p v step =
    if not (fits v step.load_after)
    then ok false
    else do ws ← windows_of p step; ok (in_hard_window ws step.start_service)

unfoldable pub steps_are_legal : Problem → Vehicle → List Step → Result Bool
steps_are_legal p v [] = ok true
steps_are_legal p v (step ∷ steps) = do
  legal ← step_is_legal p v step
  if legal then steps_are_legal p v steps else ok false

-- `steps and steps[-1].arrival > vehicle.shift.end`, negated.
unfoldable pub ends_in_shift : ℤ → List Step → Bool
ends_in_shift end [] = true
ends_in_shift end (step ∷ []) = leb_ℤ step.arrival end
ends_in_shift end (step ∷ next ∷ steps) = ends_in_shift end (next ∷ steps)

-- The hours are judged by the scheduler, where the vehicle names a rule set.
unfoldable pub hours_are_legal : Problem → String → List String → Option String → Result Bool
hours_are_legal p i ids none = ok true
hours_are_legal p i ids (some name) = if not (is_given name) then ok true else do
  rules ← rules_for name
  route ← schedule_route p i ids (some rules) none none
  ok route.legal

abbrev pub judge : Problem → String → List String → Vehicle → List Step → Bool → Result Bool
judge p i ids v timeline legal =
    if not legal
    then ok false
    else if not (ends_in_shift v.shift.end timeline)
    then ok false
    else hours_are_legal p i ids v.hos_rules

unfoldable pub route_is_legal : Problem → String → List String → Result Bool
unfolding step_is_legal steps_are_legal ends_in_shift hours_are_legal
route_is_legal p i ids = do
  v ← vehicle p i
  timeline ← build_timeline p i ids none []
  legal ← steps_are_legal p v timeline
  judge p i ids v timeline legal
