-- ===== src/Verify/Route/Accepts.antt =====
-- The legs and the limits that `_check_route` of vrp/verify/verifier.py judges, on the timelines of
-- `build_timeline` (vrp/evaluator.py).
use mathlib.Core.List.{append-nil}
use osrm_microservice.Prelude.{
  arith, ap, ◌∙◌, ◌≡◌, refl, sym, subst, true, false, not, none, some, List, [], ◌∷◌, ◌++◌, All,
  keep, String, ℤ, pos, ◌+ℤ◌, ◌-ℤ◌, ltb_ℤ, eqb_ℤ, int_laws, ok, ok-injective,
}
use osrm_microservice.Model.Vehicle.{Vehicle}
use osrm_microservice.Model.Problem.{Problem, vehicle}
use osrm_microservice.Model.Plan.{Step, is_break}
use osrm_microservice.Evaluator.Timeline.{build_timeline}
use osrm_microservice.Evaluator.Timeline.Joined.{Joined, Chained, Serves}
use osrm_microservice.Evaluator.Timeline.Chained.{timeline-Chained}
use osrm_microservice.Evaluator.Timeline.Carried.{AllSound, CarriesWell, timeline-CarriesWell}
use osrm_microservice.Evaluator.Legal.{route_is_legal, ends_in_shift}
use osrm_microservice.Evaluator.Legal.Judged.{Passes, route_is_legal-Passes}
use osrm_microservice.Verify.Findings.{inv_6, fails_if, on_vehicle, each, arc_of, arc_metres}
use osrm_microservice.Verify.Route.{
  above, check_at_step, Leg, expected_arrival, arrive, leg_step, check_legs, metres_from, metres_of,
  last_step, limit_violations, check_limits, no_leg, check_steps, check_route,
}
use osrm_microservice.Verify.Route.Clock.{clock-Serves, load_violations-none}

module _ (p : Problem) (v : Vehicle) (i : String) where
  abbrev left : Step → Leg
  left a = record { previous = some a; en_route_breaks = pos 0 }

  on_time : (b a t : ℤ) → b ≡ a +ℤ t → eqb_ℤ b (a +ℤ t +ℤ pos 0) ≡ true
  on_time b a t e =
      let same : a +ℤ t +ℤ pos 0 ≡ a +ℤ t = omega int_laws in rw (same, e) (ground arith)

  leg-Joined : (a b : Step) → Joined p v a b → leg_step p i b (left a) ≡ ok (left b, [])
  unfolding leg_step arrive expected_arrival arc_of
  leg-Joined a b j =
      rw (j.moving, j.from, j.to, j.timed, on_time b.arrival a.departure j.taken j.arrives) refl

  legs-Chained :
      (a : Step) (later : List Step) → Chained p v a later → check_legs p i later (left a) ≡ ok []
  unfolding check_legs
  legs-Chained a [] c = refl
  legs-Chained a (b ∷ later) c = rw (leg-Joined a b c.0, legs-Chained b later c.1) refl

  first_leg : (a : Step) → is_break a.type ≡ false → leg_step p i a no_leg ≡ ok (left a, [])
  unfolding leg_step arrive
  first_leg a going = rw going refl

  whole_legs :
      (a : Step) (later : List Step)
      → is_break a.type ≡ false
      → Chained p v a later
      → check_legs p i (a ∷ later) no_leg ≡ ok []
  unfolding check_legs
  whole_legs a later going c = rw (first_leg a going, legs-Chained a later c) refl

  all_moving :
      (a : Step) (later : List Step)
      → Chained p v a later
      → keep (λ (s : Step). not (is_break s.type)) later ≡ later
  all_moving a [] c = refl
  all_moving a (b ∷ later) c = rw (c.0.moving, all_moving b later c.1) refl

  metres-Chained :
      (a : Step) (later : List Step)
      → Chained p v a later
      → (m : ℤ) × (metres_from p a later ≡ ok m)
  unfolding metres_from arc_metres arc_of
  metres-Chained a [] c = (pos 0, refl)
  metres-Chained a (b ∷ later) c =
      let (m, same) = metres-Chained b later c.1 in
      (c.0.metres +ℤ m, rw (c.0.from, c.0.to, c.0.measured, same) refl)

  all_serve : (a : Step) (later : List Step) → Chained p v a later → All (Serves p v) later
  all_serve a [] c = tt
  all_serve a (b ∷ later) c = (c.0.serves, all_serve b later c.1)

  steps-accepted :
      (steps : List Step)
      → All (Serves p v) steps
      → All (Passes p v) steps
      → All CarriesWell steps
      → each (check_at_step p i v) steps ≡ ok []
  steps-accepted [] serves keeps carried = refl
  steps-accepted (step ∷ steps) serves keeps carried =
      rw
        (
          clock-Serves p v i step keeps.0.windows serves.0 keeps.0.promised keeps.0.punctual,
          load_violations-none i v step step.load_after carried.0 keeps.0.carried,
          steps-accepted steps serves.1 keeps.1 carried.1,
        )
        refl

-- `ends_in_shift` looks at the last step.
last_in_shift :
    (end : ℤ) (first : Step) (later : List Step)
    → ends_in_shift end (first ∷ later) ≡ true
    → ltb_ℤ end (last_step first later).arrival ≡ false
unfolding ends_in_shift
last_in_shift end first [] h = ground arith
last_in_shift end first (next ∷ later) h = last_in_shift end next later h

within_shift :
    (v : Vehicle) (i : String) (first last : Step) (metres : ℤ)
    → first.departure ≡ v.shift.start
    → ltb_ℤ v.shift.end last.arrival ≡ false
    → limit_violations i v first last metres
      ≡ fails_if (above v.max_duration (last.arrival -ℤ first.departure)) (on_vehicle inv_6 i)
        ++ fails_if (above v.max_distance metres) (on_vehicle inv_6 i)
unfolding limit_violations
within_shift v i first last metres leaves arrives =
    let in_time : ltb_ℤ first.departure v.shift.start ≡ false = rw leaves (ground arith) in
    rw (in_time, arrives) (append-nil _)

-- For orders whose quantities are dicts without negative amounts: on the timeline of a route that the
-- evaluator judges legal, the verifier finds no violation of INV-3, INV-4 or INV-5, and of INV-6 at
-- most that the route takes longer or is further than a limit of its vehicle.
pub check_route-accepts :
    (p : Problem) (i : String) (ids : List String)
    → AllSound p.orders
    → route_is_legal p i ids ≡ ok true
    → (v : Vehicle) × (first : Step) × (later : List Step) × (metres : ℤ) × (vehicle p i ≡ ok v)
      × (build_timeline p i ids none [] ≡ ok (first ∷ later))
      × (metres_of p (first ∷ later) ≡ ok metres)
      × (check_route p (record { vehicle_id = i; steps = first ∷ later })
          ≡ ok (
              fails_if
                (above v.max_duration ((last_step first later).arrival -ℤ first.departure))
                (on_vehicle inv_6 i)
              ++ fails_if (above v.max_distance metres) (on_vehicle inv_6 i)))
unfolding check_route check_steps check_limits metres_of
check_route-accepts p i ids sound legal =
    let (v, timeline, e₁, e₂, keeps, in_shift, hours) = route_is_legal-Passes p i ids legal in
    let (v', first, later, e₃, same, going, leaves, serves, c) =
      timeline-Chained p ids none [] i timeline e₂ in
    let one : v' ≡ v = ok-injective (sym e₃ ∙ e₁) in
    let c' = subst (λ w. Chained p w first later) one c in
    let serves' = subst (λ w. Serves p w first) one serves in
    let leaves' = subst (λ (w : Vehicle). first.departure ≡ w.shift.start) one leaves in
    let keeps' = subst (All (Passes p v)) (sym same) keeps in
    let well =
      subst (All CarriesWell) (sym same) (timeline-CarriesWell p sound i ids none [] timeline e₂) in
    let arrives =
      last_in_shift v.shift.end first later
        (subst (λ t. ends_in_shift v.shift.end t ≡ true) (sym same) in_shift) in
    let (metres, measured) = metres-Chained p v i first later c' in
    (
      v,
      first,
      later,
      metres,
      e₁,
      subst (λ t. build_timeline p i ids none [] ≡ ok t) (sym same) e₂,
      measured,
      rw
          (
            e₁,
            steps-accepted p v i (first ∷ later) (serves', all_serve p v i first later c') keeps'
                well,
            whole_legs p v i first later going c',
            going,
            all_moving p v i first later c',
            measured,
          )
          (ap ok (within_shift v i first (last_step first later) metres leaves' arrives)),
    )
