-- ===== src/Evaluator/Legal/Judged.antt =====
-- What `route_is_legal` (vrp/evaluator.py) has tested where it answers True.
use osrm_microservice.Prelude.{
  ◌≡◌, refl, subst, arith, inl, inr, Bool, true, false, not, Bool-cases, none, List, [], ◌∷◌,
  if◌then◌else◌, All, String, amount, ◌≤ℤ◌, Result, ok, >>=-eq-ok, ◌>>=◌, ok-injective,
}
use osrm_microservice.Model.Window.{TimeWindow}
use osrm_microservice.Model.Stop.{Quantities}
use osrm_microservice.Model.Vehicle.{Vehicle}
use osrm_microservice.Model.Problem.{Problem, vehicle}
use osrm_microservice.Model.Plan.{Step}
use osrm_microservice.Evaluator.Timeline.{build_timeline}
use osrm_microservice.Evaluator.Metrics.{windows_of}
use osrm_microservice.Evaluator.Legal.{
  fits, in_hard_window, step_is_legal, steps_are_legal, ends_in_shift, hours_are_legal, judge,
  route_is_legal,
}

-- What is carried is within the capacities, and service starts in a hard window if there are any.
pub record Passes (p : Problem) (v : Vehicle) (step : Step) : Type 0 where
  pub carried : All (λ e. e.1 ≤ℤ amount e.0 v.capacities) step.load_after
  pub windows : List TimeWindow
  pub promised : windows_of p step ≡ ok windows
  pub punctual : in_hard_window windows step.start_service ≡ true

fits-All :
    (v : Vehicle) (load : Quantities)
    → fits v load ≡ true
    → All (λ e. e.1 ≤ℤ amount e.0 v.capacities) load
unfolding fits
fits-All v [] h = tt
fits-All v (e ∷ load) h = (ground arith, fits-All v load (ground arith))

refused : ◌≡◌ {A = Result Bool} (ok false) (ok true) → ⊥
refused h = cc

open_gate :
    (a b : Bool) (rest : Result Bool)
    → (if not a then ok false else (if not b then ok false else rest)) ≡ ok true
    → (a ≡ true) × (b ≡ true) × (rest ≡ ok true)
open_gate true true rest h = (refl, refl, h)
open_gate true false rest h = cc
open_gate false b rest h = cc

module _ (p : Problem) (v : Vehicle) where
  abbrev punctual_at : Step → List TimeWindow → Result Bool
  punctual_at step ws = ok (in_hard_window ws step.start_service)

  split_step :
      (fit : Bool) (step : Step)
      → (if not fit then ok false else (windows_of p step >>= punctual_at step)) ≡ ok true
      → (fit ≡ true) × ((windows_of p step >>= punctual_at step) ≡ ok true)
  split_step true step h = (refl, h)
  split_step false step h = cc

  legal_step-Passes : (step : Step) → step_is_legal p v step ≡ ok true → Passes p v step
  unfolding step_is_legal
  legal_step-Passes step h =
      let (fit, rest) = split_step (fits v step.load_after) step h in
      let (ws, e, same) = >>=-eq-ok (windows_of p step) (punctual_at step) rest in
      record {
        carried = fits-All v step.load_after fit;
        windows = ws;
        promised = e;
        punctual = ok-injective same;
      }

  abbrev go_on : List Step → Bool → Result Bool
  go_on steps legal = if legal then steps_are_legal p v steps else ok false

  legal_steps-Passes :
      (steps : List Step) → steps_are_legal p v steps ≡ ok true → All (Passes p v) steps
  unfolding steps_are_legal
  legal_steps-Passes [] h = tt
  legal_steps-Passes (step ∷ steps) h =
      let (legal, e, rest) = >>=-eq-ok (step_is_legal p v step) (go_on steps) h in
      elim (Bool-cases legal) [
        | inl allowed ↦ (
          legal_step-Passes step (subst (λ b. step_is_legal p v step ≡ ok b) allowed e),
          legal_steps-Passes steps (subst (λ b. go_on steps b ≡ ok true) allowed rest),
        )
        | inr denied ↦ absurd (refused (subst (λ b. go_on steps b ≡ ok true) denied rest))
      ]

abbrev from_timeline : Problem → String → List String → Vehicle → List Step → Result Bool
from_timeline p i ids v timeline = steps_are_legal p v timeline >>= judge p i ids v timeline

abbrev from_vehicle : Problem → String → List String → Vehicle → Result Bool
from_vehicle p i ids v = build_timeline p i ids none [] >>= from_timeline p i ids v

-- The tests, in the order in which they are made.
pub route_is_legal-Passes :
    (p : Problem) (i : String) (ids : List String)
    → route_is_legal p i ids ≡ ok true
    → (v : Vehicle) × (timeline : List Step) × (vehicle p i ≡ ok v)
      × (build_timeline p i ids none [] ≡ ok timeline)
      × All (Passes p v) timeline
      × (ends_in_shift v.shift.end timeline ≡ true)
      × (hours_are_legal p i ids v.hos_rules ≡ ok true)
unfolding route_is_legal
route_is_legal-Passes p i ids h =
    let (v, e₁, h₁) = >>=-eq-ok (vehicle p i) (from_vehicle p i ids) h in
    let (timeline, e₂, h₂) =
      >>=-eq-ok (build_timeline p i ids none []) (from_timeline p i ids v) h₁ in
    let (legal, e₃, h₃) = >>=-eq-ok (steps_are_legal p v timeline) (judge p i ids v timeline) h₂ in
    let (allowed, in_shift, hours) =
      open_gate legal (ends_in_shift v.shift.end timeline) (hours_are_legal p i ids v.hos_rules)
        h₃ in
    (
      v,
      timeline,
      e₁,
      e₂,
      legal_steps-Passes p v timeline (subst (λ b. steps_are_legal p v timeline ≡ ok b) allowed e₃),
      in_shift,
      hours,
    )
