-- ===== src/Evaluator/Score/Breakdown.antt =====
-- The total of `evaluate` (vrp/evaluator.py) against its breakdown.
use osrm_microservice.Prelude.{
  suc, +ℤ_parts, ◌+◌, ◌*◌, ◌≡◌, sym, ◌∙◌, subst, arith, ap, ◌⊎◌, inl, inr, Bool, true, false,
  if◌then◌else◌, List, [], ◌∷◌, ◌++◌, String, lookup, ℤ, pos, negsuc, pos_part, neg_part, ◌+ℤ◌,
  ◌*ℤ◌, int_laws, Result, ok, ok-injective, >>=-eq-ok, ◌>>=◌,
}
use osrm_microservice.Model.Order.{is_empty}
use osrm_microservice.Model.Problem.{Problem}
use osrm_microservice.Model.Plan.{Step}
use osrm_microservice.Evaluator.Timeline.{build_timeline}
use osrm_microservice.Evaluator.Metrics.{Metrics, no_metrics, route_metrics}
use osrm_microservice.Evaluator.Accounts.{total_seconds}
use osrm_microservice.Evaluator.Score.{
  ObjectiveWeights, Tally, Evaluation, fleet_prices_itself, vehicle_cost, operating_cost,
  add_metrics, score_route, score_routes, unassigned, penalty_of, evaluate,
}

*ℤ_parts :
    (a b : ℤ)
    → pos_part (a *ℤ b) + (neg_part a * pos_part b + pos_part a * neg_part b)
      ≡ neg_part (a *ℤ b) + (pos_part a * pos_part b + neg_part a * neg_part b)
unfolding ◌*ℤ◌
*ℤ_parts a b = ground arith

distribute : (a b c : ℤ) → (a +ℤ b) *ℤ c ≡ a *ℤ c +ℤ b *ℤ c
distribute a b (pos c) = omega (
  int_laws,
  *ℤ_parts (a +ℤ b) (pos c),
  *ℤ_parts a (pos c),
  *ℤ_parts b (pos c),
  ap (λ x. x * c) (+ℤ_parts a b),
)
distribute a b (negsuc c) = omega (
  int_laws,
  *ℤ_parts (a +ℤ b) (negsuc c),
  *ℤ_parts a (negsuc c),
  *ℤ_parts b (negsuc c),
  ap (λ x. x * suc c) (+ℤ_parts a b),
)

-- Distance and time at the flat weights.
unfoldable pub priced_at : ObjectiveWeights → Metrics → ℤ
priced_at w m = m.distance *ℤ w.per_metre +ℤ total_seconds m *ℤ w.per_second

swap_sums : (a b c d : ℤ) → (a +ℤ b) +ℤ (c +ℤ d) ≡ (a +ℤ c) +ℤ (b +ℤ d)
swap_sums a b c d = omega int_laws

seconds_add : (a b : Metrics) → total_seconds (add_metrics a b) ≡ total_seconds a +ℤ total_seconds b
seconds_add a b = omega int_laws

priced_at_add :
    (w : ObjectiveWeights) (a b : Metrics)
    → priced_at w (add_metrics a b) ≡ priced_at w a +ℤ priced_at w b
unfolding priced_at
priced_at_add w a b =
    rw
      (
        seconds_add a b,
        distribute a.distance b.distance w.per_metre,
        distribute (total_seconds a) (total_seconds b) w.per_second,
      )
      (swap_sums (a.distance *ℤ w.per_metre) (b.distance *ℤ w.per_metre)
        (total_seconds a *ℤ w.per_second) (total_seconds b *ℤ w.per_second))

nothing_priced : (w : ObjectiveWeights) → pos 0 ≡ priced_at w no_metrics
unfolding priced_at ◌+ℤ◌ ◌*ℤ◌
nothing_priced w = ground arith

module _ (p : Problem) (w : ObjectiveWeights) (starts : List (String × ℤ)) where
  -- The operating cost is that of the totals.
  abbrev Explained : Tally → Type 0
  Explained t = t.operating ≡ priced_at w t.totals

  module _ (i : String) (ids : List String) (t : Tally) where
    abbrev after_rate : ℤ → List Step → Metrics → ℤ → Result Tally
    after_rate cost timeline m rate = ok (record {
      totals = add_metrics t.totals m;
      timelines = t.timelines ++ (i, timeline) ∷ [];
      deployed = t.deployed +ℤ cost;
      operating = t.operating +ℤ rate;
    })

    abbrev after_metrics : ℤ → List Step → Metrics → Result Tally
    after_metrics cost timeline m = operating_cost p i ids m w false >>= after_rate cost timeline m

    abbrev after_timeline : ℤ → List Step → Result Tally
    after_timeline cost timeline = route_metrics p timeline >>= after_metrics cost timeline

    abbrev after_cost : ℤ → Result Tally
    after_cost cost = build_timeline p i ids (lookup i starts) [] >>= after_timeline cost

    kept_or_scored :
        (empty : Bool) (t' : Tally)
        → (if empty then ok t else (vehicle_cost p i w false >>= after_cost)) ≡ ok t'
        → (t ≡ t') ⊎ ((vehicle_cost p i w false >>= after_cost) ≡ ok t')
    kept_or_scored true t' h = inl (ok-injective h)
    kept_or_scored false t' h = inr h

    rate_of :
        (m : Metrics) (rate : ℤ) → operating_cost p i ids m w false ≡ ok rate → priced_at w m ≡ rate
    unfolding operating_cost priced_at
    rate_of m rate h = ok-injective h

    scored-Explained :
        (t' : Tally) → score_route p w false starts (i, ids) t ≡ ok t' → Explained t → Explained t'
    unfolding score_route
    scored-Explained t' h inv = elim (kept_or_scored (is_empty ids) t' h) [
      | inl same ↦ subst Explained same inv
      | inr scored ↦
          let (cost, e₁, h₁) = >>=-eq-ok (vehicle_cost p i w false) after_cost scored in
          let (timeline, e₂, h₂) =
            >>=-eq-ok (build_timeline p i ids (lookup i starts) []) (after_timeline cost) h₁ in
          let (m, e₃, h₃) = >>=-eq-ok (route_metrics p timeline) (after_metrics cost timeline) h₂ in
          let (rate, e₄, h₄) =
            >>=-eq-ok (operating_cost p i ids m w false) (after_rate cost timeline m) h₃ in
          subst Explained (ok-injective h₄) (
            ap (λ x. x +ℤ rate) inv
            ∙ ap (λ x. priced_at w t.totals +ℤ x) (sym (rate_of m rate e₄))
            ∙ sym (priced_at_add w t.totals m))
    ]

  abbrev then_routes : List (String × List String) → Tally → Result Tally
  then_routes routes t = score_routes p w false starts routes t

  routes-Explained :
      (routes : List (String × List String)) (t t' : Tally)
      → score_routes p w false starts routes t ≡ ok t'
      → Explained t
      → Explained t'
  unfolding score_routes
  routes-Explained [] t t' h inv = subst Explained (ok-injective h) inv
  routes-Explained (route ∷ routes) t t' h inv =
      let (next, e, rest) =
        >>=-eq-ok (score_route p w false starts route t) (then_routes routes) h in
      routes-Explained routes next t' rest (scored-Explained route.0 route.1 t next e inv)

abbrev none_scored : Tally
none_scored = record { totals = no_metrics; timelines = []; deployed = pos 0; operating = pos 0 }

abbrev finish : Problem → List (String × List String) → ObjectiveWeights → Tally → Result Evaluation
finish p assignment w t = ok (record {
  total =
      t.operating
      +ℤ t.deployed
      +ℤ t.totals.earliness_penalty
      +ℤ t.totals.lateness_penalty
      +ℤ penalty_of w (unassigned p assignment);
  totals = t.totals;
  vehicles = t.deployed;
  unassigned_penalty = penalty_of w (unassigned p assignment);
  timelines = t.timelines;
})

abbrev IsAccounted : ObjectiveWeights → Evaluation → Type 0
IsAccounted w e =
    e.total
    ≡ priced_at w e.totals
      +ℤ e.vehicles
      +ℤ e.totals.earliness_penalty
      +ℤ e.totals.lateness_penalty
      +ℤ e.unassigned_penalty

-- For a fleet that prices nothing itself: whenever an assignment is scored, the total is the price of
-- the total distance and time at the flat weights, plus the deployed vehicles, the penalties for
-- earliness and lateness, and that for unassigned orders, as they stand in the breakdown.
pub evaluate-accounted :
    (p : Problem) (assignment : List (String × List String)) (w : ObjectiveWeights)
    (starts : List (String × ℤ)) (e : Evaluation)
    → fleet_prices_itself p ≡ false
    → evaluate p assignment w starts ≡ ok e
    → e.total
      ≡ priced_at w e.totals
        +ℤ e.vehicles
        +ℤ e.totals.earliness_penalty
        +ℤ e.totals.lateness_penalty
        +ℤ e.unassigned_penalty
unfolding evaluate
evaluate-accounted p assignment w starts e flat h =
    let h₀ = rw flat at h in
    let (t, same, rest) =
      >>=-eq-ok (score_routes p w false starts assignment none_scored) (finish p assignment w) h₀ in
    let explained = routes-Explained p w starts assignment none_scored t same (nothing_priced w) in
    subst (IsAccounted w) (ok-injective rest) (
      ap
        (λ x.
          x
          +ℤ t.deployed
          +ℤ t.totals.earliness_penalty
          +ℤ t.totals.lateness_penalty
          +ℤ penalty_of w (unassigned p assignment))
        explained)
