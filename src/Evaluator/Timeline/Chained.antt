-- ===== src/Evaluator/Timeline/Chained.antt =====
-- The loop of `build_timeline` (vrp/evaluator.py), step by step from the start to the end.
use mathlib.Core.List.{append_assoc}
use osrm_microservice.Prelude.{
  arith, false, ℕ, ◌+◌, ◌≡◌, refl, sym, subst, Option, none, some, List, [], ◌∷◌, ◌++◌, String, ℤ,
  Result, ok, All, map_result, given_or, ok-injective, >>=-eq-ok, ◌>>=◌,
}
use osrm_microservice.Model.Order.{Order}
use osrm_microservice.Model.Vehicle.{Vehicle}
use osrm_microservice.Model.Problem.{Problem, location, order, vehicle}
use osrm_microservice.Model.Plan.{Step, is_break}
use osrm_microservice.Evaluator.Timeline.{
  Progress, ChargeStop, charge_step, maybe_charge, charge_at, serve, serve_all, start_step,
  build_timeline,
}
use osrm_microservice.Evaluator.Timeline.Chains.{
  order-id, pair_parts, reading-Found, serve-reading, at_start, from_start, build_timeline-inv,
}
use osrm_microservice.Evaluator.Timeline.Joined.{
  Joined, Chained, Stands, Serves, idle, found_again, served-Joined, end-Joined,
}
use osrm_microservice.Evaluator.Timeline.Charged.{charge-Joined}

abbrev Known : Problem → Order → Type 0
Known p o = order p o.id ≡ ok o

module _ (p : Problem) (v : Vehicle) where
  -- From a step, through the given ones, to where the loop then stands.
  abbrev Reaches : Step → List Step → Progress → Type 0
  Reaches a steps s =
      (b : Step) × Stands p v b s
      × ((tail : List Step) → Chained p v b tail → Chained p v a (steps ++ tail))

  abbrev pub one_step : Step × Progress → Result (List Step × Progress)
  one_step x = ok (x.0 ∷ [], x.1)

  maybe_charge-Reaches :
      (c : Option ChargeStop) (a : Step) (s s' : Progress) (plug : List Step)
      → maybe_charge p v c s ≡ ok (plug, s')
      → Stands p v a s
      → Reaches a plug s'
  unfolding maybe_charge
  maybe_charge-Reaches none a s s' plug h st =
      let (no_plug, same) = pair_parts (ok-injective h) in
      (
        a,
        subst (Stands p v a) same st,
        λ tail c. subst (λ (q : List Step). Chained p v a (q ++ tail)) no_plug c,
      )
  maybe_charge-Reaches (some stop) a s s' plug h st =
      let (x, e, h') = >>=-eq-ok (charge_step p v stop s) one_step h in
      let (plugs, same) = pair_parts (ok-injective h') in
      let (joined, stands) = charge-Joined p v stop s a x e st in
      (
        x.0,
        subst (Stands p v x.0) same stands,
        λ tail c. subst (λ (q : List Step). Chained p v a (q ++ tail)) plugs (joined, c),
      )

  append-Chained :
      (a b : Step) (plug : List Step) (x : Step) (later tail : List Step)
      → ((rest : List Step) → Chained p v b rest → Chained p v a (plug ++ rest))
      → Joined p v b x
      → Chained p v x (later ++ tail)
      → Chained p v a ((plug ++ x ∷ later) ++ tail)
  append-Chained a b plug x later tail to_b joined more =
      subst (Chained p v a) (sym (append_assoc plug (x ∷ later) tail))
        (to_b (x ∷ later ++ tail) (joined, more))

  module _ (charges : List (ℕ × ChargeStop)) where
    abbrev pub then_step : List Step → Step → List Step × Progress → Result (List Step × Progress)
    then_step plug step x = ok (plug ++ step ∷ x.0, x.1)

    abbrev pub then_rest :
        ℕ → List Order → List Step → Step × Progress → Result (List Step × Progress)
    then_rest i os plug x = serve_all p v charges (i + 1) os x.1 >>= then_step plug x.0

    abbrev pub then_serve :
        ℕ → Order → List Order → List Step × Progress → Result (List Step × Progress)
    then_serve i o os x = serve p v o x.1 >>= then_rest i os x.0

    serve_all-Reaches :
        (i : ℕ) (os : List Order) (a : Step) (s s' : Progress) (steps : List Step)
        → All (Known p) os
        → serve_all p v charges i os s ≡ ok (steps, s')
        → Stands p v a s
        → Reaches a steps s'
    unfolding serve_all
    serve_all-Reaches i [] a s s' steps known h st =
        let (no_steps, same) = pair_parts (ok-injective h) in
        (
          a,
          subst (Stands p v a) same st,
          λ tail c. subst (λ (q : List Step). Chained p v a (q ++ tail)) no_steps c,
        )
    serve_all-Reaches i (o ∷ os) a s s' steps known h st =
        let ((plug, s₁), e₁, h₁) =
          >>=-eq-ok (maybe_charge p v (charge_at i charges) s) (then_serve i o os) h in
        let (x, e₂, h₂) = >>=-eq-ok (serve p v o s₁) (then_rest i os plug) h₁ in
        let ((later, s₃), e₃, h₃) =
          >>=-eq-ok (serve_all p v charges (i + 1) os x.1) (then_step plug x.0) h₂ in
        let (b, at_b, to_b) = maybe_charge-Reaches (charge_at i charges) a s s₁ plug e₁ st in
        let (r, e, is_served) = serve-reading p v o s₁ x e₂ in
        let (joined, at_x) =
          subst (λ (y : Step × Progress). Joined p v b y.0 × Stands p v y.0 y.1) is_served
            (served-Joined p v o b s₁ r known.0 (reading-Found p v o s₁ r e) at_b) in
        let (c, at_c, to_c) = serve_all-Reaches (i + 1) os x.0 x.1 s₃ later known.1 e₃ at_x in
        let (lists, ends) = pair_parts (ok-injective h₃) in
        (
          c,
          subst (Stands p v c) ends at_c,
          λ tail more.
              subst (λ (q : List Step). Chained p v a (q ++ tail)) lists
                (append-Chained a b plug x.0 later tail to_b joined (to_c tail more)),
        )

module _ (p : Problem) where
  abbrev pub cons_to : Order → List Order → Result (List Order)
  cons_to o os = ok (o ∷ os)

  abbrev pub then_orders : List String → Order → Result (List Order)
  then_orders ids o = map_result (order p) ids >>= cons_to o

  pub orders-Known :
      (ids : List String) (os : List Order) → map_result (order p) ids ≡ ok os → All (Known p) os
  orders-Known [] os h = subst (All (Known p)) (ok-injective h) tt
  orders-Known (i ∷ ids) os h =
      let (o, e, h₁) = >>=-eq-ok (order p i) (then_orders ids) h in
      let (rest, e', h₂) = >>=-eq-ok (map_result (order p) ids) (cons_to o) h₁ in
      subst (All (Known p)) (ok-injective h₂)
        (subst (λ x. order p x ≡ ok o) (sym (order-id p i o e)) e, orders-Known ids rest e')

  module _ (ids : List String) (start : Option ℤ) (charges : List (ℕ × ChargeStop)) where
    abbrev pub from_orders : Vehicle → List Order → Result (List Step)
    from_orders v os = location p v.start_location_id >>= from_start p v os start charges

    abbrev pub from_vehicle : Vehicle → Result (List Step)
    from_vehicle v = map_result (order p) ids >>= from_orders v

    pub timeline-Chained :
        (i : String) (timeline : List Step)
        → build_timeline p i ids start charges ≡ ok timeline
        → (v : Vehicle) × (first : Step) × (later : List Step) × (vehicle p i ≡ ok v)
          × (first ∷ later ≡ timeline)
          × (is_break first.type ≡ false)
          × (first.departure ≡ given_or start v.shift.start)
          × Serves p v first
          × Chained p v first later
    unfolding build_timeline
    timeline-Chained i timeline h =
        let (v, e₁, h₁) = >>=-eq-ok (vehicle p i) from_vehicle h in
        let (os, e₂, h₂) = >>=-eq-ok (map_result (order p) ids) (from_orders v) h₁ in
        let (l, steps, s', last, e₃, e₄, e₅, same) =
          build_timeline-inv p i ids start charges v os timeline e₁ e₂ h in
        let s₀ = at_start p v os start l in
        let (b, at_b, to_b) =
          serve_all-Reaches p v charges 0 os (start_step l.id s₀) s₀ s' steps
            (orders-Known ids os e₂) e₄
            (record {
              place = l;
              found = found_again p v v.start_location_id l e₃;
              at = refl;
              leaves = refl;
            }) in
        (
          v,
          start_step l.id s₀,
          steps ++ last ∷ [],
          e₁,
          same,
          refl,
          refl,
          idle refl (omega arith),
          to_b (last ∷ []) (end-Joined p v b s' last at_b e₅, tt),
        )
