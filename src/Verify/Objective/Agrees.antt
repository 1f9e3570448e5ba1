-- ===== src/Verify/Objective/Agrees.antt =====
-- INV-9 of vrp/verify/verifier.py on the plans that `evaluate` (vrp/evaluator.py) scores.
use osrm_microservice.Prelude.{
  ◌≡◌, refl, sym, ◌∙◌, subst, ap, ◌⊎◌, inl, inr, Bool, true, false, if◌then◌else◌, List, [], ◌∷◌,
  ◌++◌, map, String, lookup, arith, ℤ, pos, ◌+ℤ◌, ◌-ℤ◌, eqb_ℤ, int_laws, Result, ok, ok-injective,
  >>=-eq-ok, ◌>>=◌,
}
use osrm_microservice.Model.Stop.{Location}
use osrm_microservice.Model.Order.{is_empty}
use osrm_microservice.Model.Matrix.{distance}
use osrm_microservice.Model.Problem.{Problem, location, position}
use osrm_microservice.Model.Plan.{Step, Route, Solution, waiting}
use osrm_microservice.Model.Travel.{travel_between}
use osrm_microservice.Evaluator.Timeline.{build_timeline}
use osrm_microservice.Evaluator.Metrics.{
  Metrics, no_metrics, soft_penalties, add_pair, add_pairs, route_metrics,
}
use osrm_microservice.Evaluator.Score.{
  ObjectiveWeights, Tally, Evaluation, fleet_prices_itself, vehicle_cost, operating_cost,
  add_metrics, score_route, score_routes, unassigned, penalty_of, evaluate, breakdown,
}
use osrm_microservice.Verify.Findings.{arc_of}
use osrm_microservice.Verify.Objective.{
  Recomputed, nothing_recomputed, recompute_pair, recompute_from, recompute_route, recompute,
  component, check_claims, check_objective,
}

-- What the verifier would hold after the given metrics, starting from some distance and time.
abbrev after : Recomputed → Metrics → Recomputed
after r m = record {
  distance = r.distance +ℤ m.distance;
  driving_seconds = r.driving_seconds +ℤ m.driving_seconds;
}

add_later : (r m x : ℤ) → r +ℤ m +ℤ x ≡ r +ℤ (m +ℤ x)
add_later r m x = omega int_laws

add_nothing : (r : ℤ) → r +ℤ pos 0 ≡ r
add_nothing r = omega int_laws

recomputed_eq :
    (a b : Recomputed) → a.distance ≡ b.distance → a.driving_seconds ≡ b.driving_seconds → a ≡ b
recomputed_eq a b d t = cc

module _ (p : Problem) where
  module _ (a b : Step) (m : Metrics) where
    abbrev with_costs : ℤ → ℤ → ℤ × ℤ → Result Metrics
    with_costs metres taken costs = ok (record {
      distance = m.distance +ℤ metres;
      driving_seconds = m.driving_seconds +ℤ taken;
      waiting_seconds = m.waiting_seconds +ℤ waiting b;
      service_seconds = m.service_seconds +ℤ (b.departure -ℤ b.start_service);
      earliness_penalty = m.earliness_penalty +ℤ costs.0;
      lateness_penalty = m.lateness_penalty +ℤ costs.1;
    })

    abbrev with_taken : ℤ → ℤ → Result Metrics
    with_taken metres taken = soft_penalties p b >>= with_costs metres taken

    abbrev with_metres : Location → Location → ℤ → Result Metrics
    with_metres from to metres =
        travel_between p (position from) (position to) a.departure >>= with_taken metres

    abbrev with_destination : Location → Location → Result Metrics
    with_destination from to =
        distance p.matrix (position from) (position to) >>= with_metres from to

    abbrev with_origin : Location → Result Metrics
    with_origin from = location p b.location_id >>= with_destination from

    -- One pair, added by the evaluator and by the verifier.
    pair-Agrees :
        (r : Recomputed) (m' : Metrics)
        → add_pair p a b m ≡ ok m'
        → recompute_pair p a b (after r m) ≡ ok (after r m')
    unfolding add_pair recompute_pair arc_of
    pair-Agrees r m' h =
        let (from, e₁, h₁) = >>=-eq-ok (location p a.location_id) with_origin h in
        let (to, e₂, h₂) = >>=-eq-ok (location p b.location_id) (with_destination from) h₁ in
        let (metres, e₃, h₃) =
          >>=-eq-ok (distance p.matrix (position from) (position to)) (with_metres from to) h₂ in
        let (taken, e₄, h₄) =
          >>=-eq-ok (travel_between p (position from) (position to) a.departure) (with_taken metres)
            h₃ in
        let (costs, e₅, h₅) = >>=-eq-ok (soft_penalties p b) (with_costs metres taken) h₄ in
        rw (e₁, e₂, e₃, e₄)
          (ap ok (
            recomputed_eq _ _
              (add_later r.distance m.distance metres
                ∙ ap (λ (x : Metrics). r.distance +ℤ x.distance) (ok-injective h₅))
              (add_later r.driving_seconds m.driving_seconds taken
                ∙ ap (λ (x : Metrics). r.driving_seconds +ℤ x.driving_seconds) (ok-injective h₅))))

  abbrev add_later_pairs : Step → List Step → Metrics → Result Metrics
  add_later_pairs b later m = add_pairs p b later m

  pairs-Agrees :
      (a : Step) (later : List Step) (r : Recomputed) (m m' : Metrics)
      → add_pairs p a later m ≡ ok m'
      → recompute_from p a later (after r m) ≡ ok (after r m')
  unfolding add_pairs recompute_from
  pairs-Agrees a [] r m m' h = ap (λ (x : Metrics). ok (after r x)) (ok-injective h)
  pairs-Agrees a (b ∷ later) r m m' h =
      let (next, e, rest) = >>=-eq-ok (add_pair p a b m) (add_later_pairs b later) h in
      rw (pair-Agrees a b m r next e) (pairs-Agrees b later r next m' rest)

  route-Agrees :
      (steps : List Step) (r : Recomputed) (m : Metrics)
      → route_metrics p steps ≡ ok m
      → recompute_route p steps r ≡ ok (after r m)
  unfolding route_metrics recompute_route
  route-Agrees [] r m h = ap ok (
      sym (recomputed_eq _ _ (add_nothing r.distance) (add_nothing r.driving_seconds))
      ∙ ap (after r) (ok-injective h))
  route-Agrees (first ∷ later) r m h =
      subst (λ x. recompute_from p first later x ≡ ok (after r m))
        (recomputed_eq _ _ (add_nothing r.distance) (add_nothing r.driving_seconds))
        (pairs-Agrees first later r no_metrics m h)

-- The routes of a plan as `timelines` lists them.
abbrev pub routes_of : List (String × List Step) → List Route
routes_of timelines = map (λ x. record { vehicle_id = x.0; steps = x.1 }) timelines

module _ (p : Problem) (w : ObjectiveWeights) (priced : Bool) (starts : List (String × ℤ)) where
  -- The verifier recomputes the totals from the timelines.
  abbrev Agrees : Tally → Type 0
  Agrees t =
      recompute p (routes_of t.timelines) nothing_recomputed
      ≡ ok (after nothing_recomputed t.totals)

  recompute-append :
      (xs ys : List (String × List Step)) (r s : Recomputed)
      → recompute p (routes_of xs) r ≡ ok s
      → recompute p (routes_of (xs ++ ys)) r ≡ recompute p (routes_of ys) s
  unfolding recompute
  recompute-append [] ys r s h = ap (recompute p (routes_of ys)) (ok-injective h)
  recompute-append (x ∷ xs) ys r s h =
      let (next, e, rest) =
        >>=-eq-ok (recompute_route p x.1 r) (λ r'. recompute p (routes_of xs) r') h in
      rw e (recompute-append xs ys next s rest)

  one_more :
      (i : String) (timeline : List Step) (r : Recomputed) (m : Metrics)
      → route_metrics p timeline ≡ ok m
      → recompute p (routes_of ((i, timeline) ∷ [])) r ≡ ok (after r m)
  unfolding recompute
  one_more i timeline r m h = rw (route-Agrees p timeline r m h) refl

  -- The chain of `score_route`, cut at each of its reads.
  module _ (i : String) (ids : List String) (t : Tally) where
    abbrev with_rate : ℤ → List Step → Metrics → ℤ → Result Tally
    with_rate cost timeline m rate = ok (record {
      totals = add_metrics t.totals m;
      timelines = t.timelines ++ (i, timeline) ∷ [];
      deployed = t.deployed +ℤ cost;
      operating = t.operating +ℤ rate;
    })

    abbrev with_metrics : ℤ → List Step → Metrics → Result Tally
    with_metrics cost timeline m = operating_cost p i ids m w priced >>= with_rate cost timeline m

    abbrev with_timeline : ℤ → List Step → Result Tally
    with_timeline cost timeline = route_metrics p timeline >>= with_metrics cost timeline

    abbrev with_cost : ℤ → Result Tally
    with_cost cost = build_timeline p i ids (lookup i starts) [] >>= with_timeline cost

    passed_over :
        (empty : Bool) (t' : Tally)
        → (if empty then ok t else (vehicle_cost p i w priced >>= with_cost)) ≡ ok t'
        → (t ≡ t') ⊎ ((vehicle_cost p i w priced >>= with_cost) ≡ ok t')
    passed_over true t' h = inl (ok-injective h)
    passed_over false t' h = inr h

    scored-Agrees :
        (t' : Tally) → score_route p w priced starts (i, ids) t ≡ ok t' → Agrees t → Agrees t'
    unfolding score_route
    scored-Agrees t' h inv = elim (passed_over (is_empty ids) t' h) [
      | inl same ↦ subst Agrees same inv
      | inr scored ↦
          let (cost, e₁, h₁) = >>=-eq-ok (vehicle_cost p i w priced) with_cost scored in
          let (timeline, e₂, h₂) =
            >>=-eq-ok (build_timeline p i ids (lookup i starts) []) (with_timeline cost) h₁ in
          let (m, e₃, h₃) = >>=-eq-ok (route_metrics p timeline) (with_metrics cost timeline) h₂ in
          let (rate, e₄, h₄) =
            >>=-eq-ok (operating_cost p i ids m w priced) (with_rate cost timeline m) h₃ in
          subst Agrees (ok-injective h₄) (
            recompute-append t.timelines ((i, timeline) ∷ []) nothing_recomputed
              (after nothing_recomputed t.totals) inv
            ∙ one_more i timeline (after nothing_recomputed t.totals) m e₃
            ∙ ap ok (
                recomputed_eq _ _ (add_later (pos 0) t.totals.distance m.distance)
                  (add_later (pos 0) t.totals.driving_seconds m.driving_seconds)))
    ]

  routes-Agrees :
      (routes : List (String × List String)) (t t' : Tally)
      → score_routes p w priced starts routes t ≡ ok t'
      → Agrees t
      → Agrees t'
  unfolding score_routes
  routes-Agrees [] t t' h inv = subst Agrees (ok-injective h) inv
  routes-Agrees (route ∷ routes) t t' h inv =
      let (next, e, rest) =
        >>=-eq-ok (score_route p w priced starts route t)
          (λ t. score_routes p w priced starts routes t) h in
      routes-Agrees routes next t' rest (scored-Agrees route.0 route.1 t next e inv)

same_claim : (a : ℤ) → eqb_ℤ a (pos 0 +ℤ a) ≡ true
same_claim a = let e : pos 0 +ℤ a ≡ a = omega int_laws in rw e (ground arith)

claims_hold : (e : Evaluation) → check_claims (after nothing_recomputed e.totals) (breakdown e) ≡ []
unfolding check_claims component
claims_hold e = rw (same_claim e.totals.distance, same_claim e.totals.driving_seconds) refl

module _ (p : Problem) (assignment : List (String × List String)) (w : ObjectiveWeights) where
  abbrev nothing_scored : Tally
  nothing_scored = record {
    totals = no_metrics;
    timelines = [];
    deployed = pos 0;
    operating = pos 0;
  }

  abbrev evaluated : Tally → Result Evaluation
  evaluated t = ok (record {
    total =
        t.operating
        +ℤ t.deployed
        +ℤ t.totals.earliness_penalty
        +ℤ t.totals.lateness_penalty
        +ℤ penalty_of w (unassigned p assignment);
    totals = t.totals;
    vehicles = t.deployed;
    unassigned_penalty = penalty_of w (unassigned p assignment);
    timelines = t.timelines;
  })

  abbrev Recomputes : Evaluation → Type 0
  Recomputes e =
      recompute p (routes_of e.timelines) nothing_recomputed
      ≡ ok (after nothing_recomputed e.totals)

  -- Whenever an assignment is scored: for every plan with the timelines and the breakdown of the
  -- evaluation, the verifier recomputes distance and driving time from the routes and finds no
  -- violation of INV-9.
  pub evaluate-accepted :
      (starts : List (String × ℤ)) (e : Evaluation) (s : Solution)
      → evaluate p assignment w starts ≡ ok e
      → s.routes ≡ routes_of e.timelines
      → s.objective_breakdown ≡ breakdown e
      → check_objective p s ≡ ok []
  unfolding evaluate check_objective
  evaluate-accepted starts e s h routes claims =
      let (t, same, rest) =
        >>=-eq-ok (score_routes p w (fleet_prices_itself p) starts assignment nothing_scored)
          evaluated h in
      let agrees =
        routes-Agrees p w (fleet_prices_itself p) starts assignment nothing_scored t same
          (unfold recompute ◌+ℤ◌ in refl) in
      let recomputes = subst Recomputes (ok-injective rest) agrees in
      rw (claims, routes, recomputes) (ap ok (claims_hold e))
