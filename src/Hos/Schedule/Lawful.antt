-- ===== src/Hos/Schedule/Lawful.antt =====
-- What a legal route (`schedule_route` of vrp/hos/schedule.py) says of the driver's day.
use osrm_microservice.Prelude.{
  ℕ, ◌+◌, ◌≤◌, ◌<◌, max, ◌≡◌, refl, sym, subst, inl, inr, Bool-cases, true, false, not, Option,
  none, some, List, [], ◌∷◌, ◌++◌, String, ℤ, ◌≤ℤ◌, ltb_ℤ, ltb-false→≤ℤ, ok, map_result,
  ok-injective, >>=-eq-ok,
}
use mathlib.Core.List.{append_assoc}
use osrm_microservice.Hos.Rules.{HoursOfServiceRules, init_state}
use osrm_microservice.Hos.Schedule.{
  Leg, Shift, Violation, ScheduledRoute, index_of, drive_leg, schedule_stops, schedule_route,
  plain_step, with_shift_end,
}
use osrm_microservice.Hos.Schedule.Road.{road_time, stops-Road}
use osrm_microservice.Model.Order.{Order, is_some}
use osrm_microservice.Model.Vehicle.{Vehicle, ends_at}
use osrm_microservice.Model.Matrix.{duration}
use osrm_microservice.Model.Problem.{Problem, order, vehicle}
use osrm_microservice.Model.Plan.{Step, StepType}
use osrm_microservice.Evaluator.Load.{initial_load}

-- There is a last step, and it arrives by then.
abbrev pub EndsBy : ℤ → List Step → Type 0
EndsBy end steps =
    (before : List Step) × (last : Step) × (steps ≡ before ++ last ∷ []) × (last.arrival ≤ℤ end)

-- The route that the scheduler makes of the orders under a rule set has no violation: it ends within
-- the shift, and what the driver drove before and drives on it is within the daily limit, or no more
-- than they drove before.
pub record Lawful (p : Problem) (i : String) (ids : List String) (v : Vehicle)
    (r : HoursOfServiceRules) : Type 0 where
  pub route : ScheduledRoute
  pub scheduled : schedule_route p i ids (some r) none none ≡ ok route
  pub no_violation : route.violation ≡ none
  pub ends : EndsBy v.shift.end route.steps
  pub orders : List Order
  pub known : map_result (order p) ids ≡ ok orders
  pub start : ℕ
  pub starts : index_of p v.start_location_id ≡ ok start
  pub seconds : ℕ
  pub on_road : road_time p (ends_at v) start orders ≡ ok seconds
  pub driven : route.state.drive_used ≡ (init_state v.initial_state).drive_used + seconds
  pub in_day :
      (init_state v.initial_state).drive_used + seconds
      ≤ max r.max_drive (init_state v.initial_state).drive_used

within_shift :
    (violation : Option Violation) (clock end : ℤ)
    → not (is_some (with_shift_end violation clock end)) ≡ true
    → (violation ≡ none) × (with_shift_end violation clock end ≡ none) × (clock ≤ℤ end)
within_shift (some v) clock end h = cc
within_shift none clock end h = elim (Bool-cases (ltb_ℤ end clock)) [
  | inl late ↦ absurd (no_late (rw late at h))
  | inr early ↦ (refl, rw early refl, ltb-false→≤ℤ end clock early)
]
  where
    no_late : false ≡ true → ⊥
    no_late e = cc

-- What the scheduler returns, from what it found.
abbrev made : Vehicle → List Order → List Step → Shift → Leg → ScheduledRoute
made v os steps s leg =
    let violation = with_shift_end leg.violation leg.clock v.shift.end in
    record {
      steps =
          plain_step StepType.start v.start_location_id v.shift.start (initial_load os) ∷ steps
          ++ (leg.breaks ++ plain_step StepType.end (ends_at v) leg.clock s.on_board ∷ []);
      legal = not (is_some violation);
      violation = violation;
      state = leg.driver;
    }

module _ (p : Problem) (i : String) (ids : List String) (v : Vehicle)
    (r : HoursOfServiceRules) where
  abbrev begin : List Order → ℕ → Shift
  begin os start = record {
    clock = v.shift.start;
    driver = init_state v.initial_state;
    violation = none;
    at = start;
    on_board = initial_load os;
  }

  record Scheduled (route : ScheduledRoute) : Type 0 where
    orders : List Order
    start : ℕ
    steps : List Step
    s : Shift
    end : ℕ
    taken : ℤ
    leg : Leg
    known : map_result (order p) ids ≡ ok orders
    starts : index_of p v.start_location_id ≡ ok start
    stops : schedule_stops p v (some r) orders (begin orders start) ≡ ok (steps, s)
    placed : index_of p (ends_at v) ≡ ok end
    timed : duration p.matrix s.at end ≡ ok taken
    drives : drive_leg (some r) taken (ends_at v) s.on_board s.violation s.clock s.driver ≡ ok leg
    same : made v orders steps s leg ≡ route

  schedule_route-Scheduled :
      (route : ScheduledRoute)
      → vehicle p i ≡ ok v
      → schedule_route p i ids (some r) none none ≡ ok route
      → Scheduled route
  unfolding schedule_route
  schedule_route-Scheduled route found h =
      let h₀ = rw found at h in
      let (os, e₁, h₁) = >>=-eq-ok (map_result (order p) ids) _ h₀ in
      let (start, e₂, h₂) = >>=-eq-ok (index_of p v.start_location_id) _ h₁ in
      let ((steps, s), e₃, h₃) = >>=-eq-ok (schedule_stops p v (some r) os (begin os start)) _ h₂ in
      let (end, e₄, h₄) = >>=-eq-ok (index_of p (ends_at v)) _ h₃ in
      let (taken, e₅, h₅) = >>=-eq-ok (duration p.matrix s.at end) _ h₄ in
      let (leg, e₆, h₆) =
        >>=-eq-ok (drive_leg (some r) taken (ends_at v) s.on_board s.violation s.clock s.driver) _
          h₅ in
      record {
        orders = os;
        start = start;
        steps = steps;
        s = s;
        end = end;
        taken = taken;
        leg = leg;
        known = e₁;
        starts = e₂;
        stops = e₃;
        placed = e₄;
        timed = e₅;
        drives = e₆;
        same = ok-injective h₆;
      }

  ends_with-Leg :
      (os : List Order) (steps : List Step) (s : Shift) (leg : Leg)
      → leg.clock ≤ℤ v.shift.end
      → EndsBy v.shift.end (made v os steps s leg).steps
  ends_with-Leg os steps s leg in_shift =
      let last = plain_step StepType.end (ends_at v) leg.clock s.on_board in
      let first = plain_step StepType.start v.start_location_id v.shift.start (initial_load os) in
      (
        first ∷ steps ++ leg.breaks,
        last,
        sym (append_assoc (first ∷ steps) leg.breaks (last ∷ [])),
        in_shift,
      )

  pub schedule_route-Lawful :
      (route : ScheduledRoute)
      → 0 < r.drive_before_break
      → vehicle p i ≡ ok v
      → schedule_route p i ids (some r) none none ≡ ok route
      → route.legal ≡ true
      → Lawful p i ids v r
  schedule_route-Lawful route has_block found h legal =
      let f = schedule_route-Scheduled route found h in
      let (lawful, clean, in_shift) =
        within_shift f.leg.violation f.leg.clock v.shift.end
          (subst (λ (x : ScheduledRoute). x.legal ≡ true) (sym f.same) legal) in
      let road =
        stops-Road r has_block p v f.orders (begin f.orders f.start) f.s f.steps f.leg f.stops
          (record {
            end = f.end;
            taken = f.taken;
            placed = f.placed;
            timed = f.timed;
            drives = f.drives;
            lawful = lawful;
          }) in
      record {
        route = route;
        scheduled = h;
        no_violation = subst (λ (x : ScheduledRoute). x.violation ≡ none) f.same clean;
        ends =
            subst (λ (x : ScheduledRoute). EndsBy v.shift.end x.steps) f.same
              (ends_with-Leg f.orders f.steps f.s f.leg in_shift);
        orders = f.orders;
        known = f.known;
        start = f.start;
        starts = f.starts;
        seconds = road.seconds;
        on_road = road.road;
        driven =
            subst
              (λ (x : ScheduledRoute).
                x.state.drive_used ≡ (init_state v.initial_state).drive_used + road.seconds)
              f.same road.driven;
        in_day =
            subst (λ n. n ≤ max r.max_drive (init_state v.initial_state).drive_used) road.driven
              road.most;
      }
