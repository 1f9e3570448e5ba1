-- ===== src/Evaluator/Legal/Kept.antt =====
-- The limits that a route judged by `route_is_legal` (vrp/evaluator.py) keeps to, without the
-- evaluator's tests of them.
use osrm_microservice.Prelude.{
  arith, ◌<◌, ◌≡◌, refl, sym, ap, subst, ◌⊎◌, inl, inr, Bool, true, false, not, Bool-cases, Option,
  none, some, List, [], ◌∷◌, if◌then◌else◌, All, String, str_eq, eq_iff, amount, ℤ, ◌≤ℤ◌, leb→≤ℤ,
  ok, err, value_error, ok-injective, >>=-eq-ok,
}
use osrm_microservice.Hos.Rules.{HoursOfServiceRules, eu_561, us_hos, rules_for}
use osrm_microservice.Hos.Schedule.{schedule_route}
use osrm_microservice.Hos.Schedule.Lawful.{EndsBy, Lawful, schedule_route-Lawful}
use osrm_microservice.Model.Window.{TimeWindow}
use osrm_microservice.Model.Stop.{is_given}
use osrm_microservice.Model.Vehicle.{Vehicle}
use osrm_microservice.Model.Problem.{Problem, vehicle}
use osrm_microservice.Model.Plan.{Step}
use osrm_microservice.Evaluator.Timeline.{build_timeline}
use osrm_microservice.Evaluator.Timeline.Chained.{timeline-Chained}
use osrm_microservice.Evaluator.Legal.{ends_in_shift, hours_are_legal, route_is_legal}
use osrm_microservice.Evaluator.Legal.Windows.{
  Promised, Punctual, windows_of-Promised, in_hard_window-Punctual,
}
use osrm_microservice.Evaluator.Legal.Judged.{Passes, route_is_legal-Passes}

-- What is carried is within the capacities, and service starts in a hard window if there are any.
pub record Keeps (p : Problem) (v : Vehicle) (step : Step) : Type 0 where
  pub carried : All (λ e. e.1 ≤ℤ amount e.0 v.capacities) step.load_after
  pub windows : List TimeWindow
  pub promised : Promised p step.order_id windows
  pub punctual : Punctual windows step.start_service

-- The vehicle names no rule set, or the scheduler finds the route lawful under the one it names.
abbrev pub HoursKept : Problem → String → List String → Vehicle → Option String → Type 0
HoursKept p i ids v none = Unit
HoursKept p i ids v (some name) =
    (name ≡ "") ⊎ ((r : HoursOfServiceRules) × (rules_for name ≡ ok r) × Lawful p i ids v r)

step-Keeps : (p : Problem) (v : Vehicle) (step : Step) → Passes p v step → Keeps p v step
step-Keeps p v step h = record {
  carried = h.carried;
  windows = h.windows;
  promised = windows_of-Promised p step h.windows h.promised;
  punctual = in_hard_window-Punctual h.windows step.start_service h.punctual;
}

all-Keeps :
    (p : Problem) (v : Vehicle) (steps : List Step) → All (Passes p v) steps → All (Keeps p v) steps
all-Keeps p v [] h = tt
all-Keeps p v (step ∷ steps) (here, later) = (step-Keeps p v step here, all-Keeps p v steps later)

ends_in_shift-EndsBy :
    (end : ℤ) (step : Step) (steps : List Step)
    → ends_in_shift end (step ∷ steps) ≡ true
    → EndsBy end (step ∷ steps)
unfolding ends_in_shift
ends_in_shift-EndsBy end step [] h = ([], step, refl, leb→≤ℤ step.arrival end h)
ends_in_shift-EndsBy end step (next ∷ steps) h =
    let (before, last, same, early) = ends_in_shift-EndsBy end next steps h in
    (step ∷ before, last, ap (λ (x : List Step). step ∷ x) same, early)

-- The rule sets that there are have a driving block.
rules_for-block :
    (name : String) (r : HoursOfServiceRules) → rules_for name ≡ ok r → 0 < r.drive_before_break
unfolding rules_for
rules_for-block name r h = by_name (str_eq name "EU-561") (str_eq name "US-HOS") h
  where
    by_name :
        (eu us : Bool)
        → (if eu then ok eu_561 else if us then ok us_hos else err value_error) ≡ ok r
        → 0 < r.drive_before_break
    by_name true us h =
        subst (λ (x : HoursOfServiceRules). 0 < x.drive_before_break) (ok-injective h) (omega arith)
    by_name false true h =
        subst (λ (x : HoursOfServiceRules). 0 < x.drive_before_break) (ok-injective h) (omega arith)
    by_name false false h = cc

of_not : (b : Bool) → not b ≡ false → b ≡ true
of_not true e = refl
of_not false e = cc

legal_hours-HoursKept :
    (p : Problem) (i : String) (ids : List String) (v : Vehicle) (named : Option String)
    → vehicle p i ≡ ok v
    → hours_are_legal p i ids named ≡ ok true
    → HoursKept p i ids v named
unfolding hours_are_legal
legal_hours-HoursKept p i ids v none found h = tt
legal_hours-HoursKept p i ids v (some name) found h = elim (Bool-cases (is_given name)) [
  | inr unnamed ↦ inl ((eq_iff name "").0 (of_not (str_eq name "") unnamed))
  | inl named ↦
      let (r, e, h₁) = >>=-eq-ok (rules_for name) _ (rw named at h) in
      let (route, e₁, h₂) = >>=-eq-ok (schedule_route p i ids (some r) none none) _ h₁ in
      inr (
        r,
        e,
        schedule_route-Lawful p i ids v r route (rules_for-block name r e) found e₁
            (ok-injective h₂),
      )
]

-- Whenever a route is judged legal: its vehicle is known and its timeline is built; at every step
-- each dimension of the load is within the vehicle's capacity, and where the step's order has a hard
-- window, service starts in one, between its start and its end; the last step arrives by the end of
-- the shift; and a vehicle that names a rule set names one that exists, under which the scheduler's
-- route has no violation, ends within the shift, and together with what the driver drove before takes
-- no more driving than the daily limit (or no more than before, if that was beyond it).
pub route_is_legal-Keeps :
    (p : Problem) (i : String) (ids : List String)
    → route_is_legal p i ids ≡ ok true
    → (v : Vehicle) × (timeline : List Step) × (vehicle p i ≡ ok v)
      × (build_timeline p i ids none [] ≡ ok timeline)
      × All (Keeps p v) timeline
      × EndsBy v.shift.end timeline
      × HoursKept p i ids v v.hos_rules
route_is_legal-Keeps p i ids h =
    let (v, timeline, found, built, passes, in_shift, hours) = route_is_legal-Passes p i ids h in
    let (_, first, later, _, same, _, _, _, _) = timeline-Chained p ids none [] i timeline built in
    (
      v,
      timeline,
      found,
      built,
      all-Keeps p v timeline passes,
      subst (EndsBy v.shift.end) same (
          ends_in_shift-EndsBy v.shift.end first later
            (subst (λ x. ends_in_shift v.shift.end x ≡ true) (sym same) in_shift)),
      legal_hours-HoursKept p i ids v v.hos_rules found hours,
    )
