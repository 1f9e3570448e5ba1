-- ===== src/Hos/Schedule/Agreement.antt =====
-- `schedule_route` of vrp/hos/schedule.py against `build_timeline` of vrp/evaluator.py.
use osrm_microservice.Prelude.{
  ℕ, ◌+◌, ◌≡◌, refl, sym, ◌∙◌, subst, arith, not, Option, none, some, List, [], ◌∷◌, ◌++◌, String,
  ℤ, ◌+ℤ◌, ◌≤ℤ◌, max_ℤ, Result, ok, err, given_or, All, map_result, ok-injective, >>=-eq-ok, ◌>>=◌,
}
use osrm_microservice.Hos.Rules.{DriverState, init_state}
use osrm_microservice.Hos.Schedule.{
  Shift, ScheduledRoute, index_of, first_window_start, at_stop, drive_leg, schedule_stop,
  schedule_stops, schedule_route, carry_over, plain_step, with_shift_end,
}
use osrm_microservice.Model.Window.{TimeWindow}
use osrm_microservice.Model.Stop.{Location, StopSpec}
use osrm_microservice.Model.Order.{Order, is_some}
use osrm_microservice.Model.Vehicle.{Vehicle, is_electric, ends_at}
use osrm_microservice.Model.Matrix.{duration}
use osrm_microservice.Model.Problem.{Problem, location, order, vehicle, position}
use osrm_microservice.Model.Plan.{Step, StepType}
use osrm_microservice.Model.Travel.{travel_between, scaled, governing, profile_for_arc}
use osrm_microservice.Model.Service.{delivery_or_pickup}
use osrm_microservice.Evaluator.Load.{initial_load}
use osrm_microservice.Evaluator.Timeline.{
  Progress, Reading, reading, served, service_start, drained, serve, serve_all, maybe_charge,
  start_step, end_step, build_timeline, initial_soc,
}
use osrm_microservice.Evaluator.Timeline.Chains.{
  location-id, pair_parts, Found, reading-Found, serve-reading, end_at, end_step-found, at_start,
  build_timeline-inv,
}

-- At most one window, and that one not inside out.
abbrev pub AtMostOne : List TimeWindow → Type 0
AtMostOne [] = Unit
AtMostOne (w ∷ []) = w.start ≤ℤ w.end
AtMostOne _ = ⊥

abbrev pub Windowed : Order → Type 0
Windowed o = (stop : StopSpec) → delivery_or_pickup o ≡ some stop → AtMostOne stop.time_windows

one_window_start :
    (arrival : ℤ) (ws : List TimeWindow)
    → AtMostOne ws
    → first_window_start arrival ws ≡ service_start arrival ws
unfolding service_start max_ℤ
one_window_start arrival [] h = refl
one_window_start arrival (w ∷ []) h = ground arith
one_window_start arrival (w ∷ x ∷ ws) h = absurd h

index_of-location :
    (p : Problem) (i : String) (l : Location) → location p i ≡ ok l → index_of p i ≡ ok (position l)
unfolding index_of
index_of-location p i l h = rw (h, index_of)

at_stop-none : (d : DriverState) (a b c : ℤ) → at_stop none d a b c ≡ ok d
unfolding at_stop
at_stop-none d a b c = ground arith

drained-none :
    (v : Vehicle) (soc : Option ℤ) (metres : ℤ) {left : Option ℤ}
    → soc ≡ none
    → drained v soc metres ≡ ok left
    → left ≡ none
unfolding drained
drained-none v none metres e h = sym (ok-injective h)
drained-none v (some q) metres e h = cc

module _ (p : Problem) (one : p.speed_profile ≡ none) (by_class : p.speed_profiles ≡ none) where
  no_scaling :
      (m : Result ℤ) (depart : ℤ)
      → (m >>= λ f. scaled (governing p.speed_profiles p.speed_profile f) f depart) ≡ m
  unfolding scaled
  no_scaling (ok f) depart = rw (by_class, one)
  no_scaling (err e) depart = refl

  travel_between_free : (a b : ℕ) (depart : ℤ) → travel_between p a b depart ≡ duration p.matrix a b
  unfolding travel_between profile_for_arc
  travel_between_free a b depart = no_scaling (duration p.matrix a b) depart

module _ (p : Problem) (one : p.speed_profile ≡ none) (by_class : p.speed_profiles ≡ none) where
  abbrev shift_of : Progress → DriverState → Shift
  shift_of s d = record {
    clock = s.clock;
    driver = d;
    violation = none;
    at = s.at;
    on_board = s.on_board;
  }

  Found-agrees :
      (v : Vehicle) (o : Order) (s : Progress) (d : DriverState) (r : Reading)
      → Found p v o s r
      → r.soc ≡ none
      → Windowed o
      → schedule_stop p v none o (shift_of s d)
        ≡ ok ((served o s r).0 ∷ [], shift_of (served o s r).1 d)
  unfolding schedule_stop served drive_leg
  Found-agrees v o s d r f unpowered windows =
      let drives =
        sym (travel_between_free p one by_class s.at (position r.place) s.clock) ∙ f.taken in
      let same_place = location-id p f.stop.location_id r.place f.place in
      let begin =
        one_window_start (s.clock +ℤ r.taken) f.stop.time_windows (windows f.stop f.stops) in
      rw
        (
          f.stops,
          index_of-location p f.stop.location_id r.place f.place,
          drives,
          f.place,
          f.service,
          at_stop-none,
          f.windows,
          unpowered,
          ← begin,
          ← same_place,
        )
        refl

  abbrev then_step : List Step → Step → List Step × Progress → Result (List Step × Progress)
  then_step plug step (steps, s) = ok (plug ++ step ∷ steps, s)

  abbrev then_rest : Vehicle → ℕ → List Order → Step × Progress → Result (List Step × Progress)
  then_rest v i os (step, s) = serve_all p v [] (i + 1) os s >>= then_step [] step

  served-soc : (o : Order) (s : Progress) (r : Reading) → (served o s r).1.soc ≡ r.soc
  unfolding served
  served-soc o s r = refl

  serve_all-cons :
      (v : Vehicle) (i : ℕ) (o : Order) (os : List Order) (s s' : Progress) (steps : List Step)
      → serve_all p v [] i (o ∷ os) s ≡ ok (steps, s')
      → (r : Reading) × (later : List Step) × (reading p v o s ≡ ok r)
        × (serve_all p v [] (i + 1) os (served o s r).1 ≡ ok (later, s'))
        × ((served o s r).0 ∷ later ≡ steps)
  unfolding serve_all maybe_charge
  serve_all-cons v i o os s s' steps h =
      let (x, e₁, h₁) = >>=-eq-ok (serve p v o s) (then_rest v i os) h in
      let (r, e₂, same) = serve-reading p v o s x e₁ in
      let h₃ = subst (λ x. then_rest v i os x ≡ ok (steps, s')) (sym same) h₁ in
      let (y, e₄, h₄) =
        >>=-eq-ok (serve_all p v [] (i + 1) os (served o s r).1) (then_step [] (served o s r).0)
          h₃ in
      let (lists, ends) = pair_parts (ok-injective h₄) in
      (
        r,
        y.0,
        e₂,
        subst (λ q. serve_all p v [] (i + 1) os (served o s r).1 ≡ ok (y.0, q)) ends e₄,
        lists,
      )

  serve_all-agrees :
      (v : Vehicle) (i : ℕ) (os : List Order) (s s' : Progress) (d : DriverState)
      (steps : List Step)
      → s.soc ≡ none
      → All Windowed os
      → serve_all p v [] i os s ≡ ok (steps, s')
      → (schedule_stops p v none os (shift_of s d) ≡ ok (steps, shift_of s' d)) × (s'.soc ≡ none)
  unfolding serve_all schedule_stops
  serve_all-agrees v i [] s s' d steps unpowered windows h =
      let (lists, ends) = pair_parts (ok-injective h) in
      (rw (lists, ends), subst (λ q. q.soc ≡ none) ends unpowered)
  serve_all-agrees v i (o ∷ os) s s' d steps unpowered windows h =
      let (r, later, e, rest, same) = serve_all-cons v i o os s s' steps h in
      let f = reading-Found p v o s r e in
      let unpowered' = drained-none v s.soc f.metres unpowered f.drains in
      let (ih, still) =
        serve_all-agrees v (i + 1) os (served o s r).1 s' d later (served-soc o s r ∙ unpowered')
          windows.1 rest in
      (rw (Found-agrees v o s d r f unpowered' windows.0, ih, same), still)

  end_step-inv :
      (v : Vehicle) (s : Progress) (step : Step)
      → s.soc ≡ none
      → end_step p v s ≡ ok step
      → (l : Location) × (taken : ℤ) × (location p (ends_at v) ≡ ok l)
        × (duration p.matrix s.at (position l) ≡ ok taken)
        × (end_at p s l taken none ≡ ok step)
  end_step-inv v s step unpowered h =
      let (l, taken, metres, soc, e₁, e₂, e₃, e₄, h₄) = end_step-found p v s step h in
      (
        l,
        taken,
        e₁,
        sym (travel_between_free p one by_class s.at (position l) s.clock) ∙ e₂,
        subst (λ q. end_at p s l taken q ≡ ok step) (drained-none v s.soc metres unpowered e₄) h₄,
      )

initial_soc-none : (v : Vehicle) → v.battery_wh ≡ none → initial_soc v ≡ none
unfolding is_electric
initial_soc-none v h = rw (h, initial_soc, is_electric)

first_step :
    (p : Problem) (v : Vehicle) (os : List Order) (start : Option ℤ) (l : Location)
    → location p v.start_location_id ≡ ok l
    → v.battery_wh ≡ none
    → start_step l.id (at_start p v os start l)
      ≡ plain_step StepType.start v.start_location_id
          (given_or start v.shift.start)
          (initial_load os)
first_step p v os start l e fuelled =
    rw (location-id p v.start_location_id l e, initial_soc-none v fuelled)

last_step :
    (p : Problem) (one : p.speed_profile ≡ none) (by_class : p.speed_profiles ≡ none) (v : Vehicle)
    (s : Progress) (last : Step) (end : Location) (taken : ℤ)
    → location p (ends_at v) ≡ ok end
    → end_at p s end taken none ≡ ok last
    → plain_step StepType.end (ends_at v) (s.clock +ℤ taken) s.on_board ≡ last
last_step p one by_class v s last end taken found ending =
    rw (← location-id p (ends_at v) end found) (ok-injective ending)

-- For an instance without speed profiles, a vehicle without a battery, and orders whose stops have at
-- most one window, not inside out: whenever the evaluator builds a timeline for a route without
-- charges, the scheduler without rules returns the same steps, and the driver as they started.
pub schedule-agrees-evaluator :
    (p : Problem) (i : String) (ids : List String) (start : Option ℤ) (initial : Option DriverState)
    (v : Vehicle) (os : List Order) (timeline : List Step)
    → p.speed_profile ≡ none
    → p.speed_profiles ≡ none
    → vehicle p i ≡ ok v
    → v.battery_wh ≡ none
    → map_result (order p) ids ≡ ok os
    → All Windowed os
    → build_timeline p i ids start [] ≡ ok timeline
    → (r : ScheduledRoute) × (schedule_route p i ids none initial start ≡ ok r)
      × (r.steps ≡ timeline)
      × (r.state ≡ init_state (carry_over initial v))
unfolding schedule_route drive_leg
schedule-agrees-evaluator p i ids start initial v os timeline one by_class found fuelled orders
      windows h =
    let (l, steps, s', last, e₁, e₂, e₃, same) =
      build_timeline-inv p i ids start [] v os timeline found orders h in
    let (scheduled, unpowered) =
      serve_all-agrees p one by_class v 0 os (at_start p v os start l) s'
        (init_state (carry_over initial v)) steps (initial_soc-none v fuelled) windows e₂ in
    let (end, taken, at_end, drives, ending) = end_step-inv p one by_class v s' last unpowered e₃ in
    let violation = with_shift_end none (s'.clock +ℤ taken) v.shift.end in
    (
      record {
        steps =
            plain_step StepType.start v.start_location_id (given_or start v.shift.start)
                (initial_load os)
              ∷ steps
            ++ plain_step StepType.end (ends_at v) (s'.clock +ℤ taken) s'.on_board ∷ [];
        legal = not (is_some violation);
        violation = violation;
        state = init_state (carry_over initial v);
      },
      rw (
        found,
        orders,
        index_of-location p v.start_location_id l e₁,
        scheduled,
        index_of-location p (ends_at v) end at_end,
        drives,
      ),
      rw
          (
            ← first_step p v os start l e₁ fuelled,
            last_step p one by_class v s' last end taken at_end ending,
          )
          same,
      refl,
    )
