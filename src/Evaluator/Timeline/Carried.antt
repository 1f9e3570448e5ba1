-- ===== src/Evaluator/Timeline/Carried.antt =====
-- The load at each step of `build_timeline` (vrp/evaluator.py).
use osrm_microservice.Prelude.{
  ℕ, ◌+◌, ◌≡◌, subst, Option, none, some, List, [], ◌∷◌, All, append-All, String, str_eq,
  Bool-cases, inl, inr, ℤ, pos, ◌≤ℤ◌, ok, map_result, ok-injective, >>=-eq-ok,
}
use osrm_microservice.Model.Order.{Order}
use osrm_microservice.Model.Vehicle.{Vehicle}
use osrm_microservice.Model.Problem.{Problem, find_order, order, vehicle}
use osrm_microservice.Model.Plan.{Step}
use osrm_microservice.Evaluator.Load.{initial_load, serve_load}
use osrm_microservice.Evaluator.Load.Amounts.{IsSound}
use osrm_microservice.Evaluator.Load.NotNegative.{
  Covers, serve_load-Covers, Covers-not_negative, initial_load-Covers,
}
use osrm_microservice.Evaluator.Timeline.{
  Progress, ChargeStop, charge_step, maybe_charge, charge_at, serve, serve_all, served, end_step,
  build_timeline,
}
use osrm_microservice.Evaluator.Timeline.Chains.{
  pair_parts, serve-reading, end_step-found, at_start, build_timeline-inv,
}
use osrm_microservice.Evaluator.Timeline.Charged.{charge_step-found}
use osrm_microservice.Evaluator.Timeline.Chained.{
  cons_to, then_orders, one_step, then_step, then_rest, then_serve, from_orders, from_vehicle,
}

-- A step carries less than nothing of no dimension.
abbrev pub CarriesWell : Step → Type 0
CarriesWell step = All (λ e. pos 0 ≤ℤ e.1) step.load_after

abbrev pub AllSound : List Order → Type 0
AllSound os = All (λ (o : Order). IsSound o.quantities) os

module _ (p : Problem) (v : Vehicle) where
  -- The load after some steps covers what is then still to deliver.
  abbrev Carries : List Order → List Step → Progress → Type 0
  Carries os steps s = All CarriesWell steps × Covers os s.on_board

  maybe_charge-Carries :
      (c : Option ChargeStop) (os : List Order) (s s' : Progress) (plug : List Step)
      → AllSound os
      → maybe_charge p v c s ≡ ok (plug, s')
      → Covers os s.on_board
      → Carries os plug s'
  unfolding maybe_charge
  maybe_charge-Carries none os s s' plug sound h holds =
      let (no_plug, same) = pair_parts (ok-injective h) in
      (
        subst (All CarriesWell) no_plug tt,
        subst (λ (q : Progress). Covers os q.on_board) same holds,
      )
  maybe_charge-Carries (some stop) os s s' plug sound h holds =
      let (x, e, h') = >>=-eq-ok (charge_step p v stop s) (one_step p v) h in
      let (plugs, same) = pair_parts (ok-injective h') in
      let (l, taken, metres, plugged, e₁, e₂, e₃, is_plugged) = charge_step-found p v stop s x e in
      let (well, covers) =
        subst (λ (y : Step × Progress). CarriesWell y.0 × Covers os y.1.on_board) is_plugged
          (Covers-not_negative os s.on_board sound holds, holds) in
      (
        subst (All CarriesWell) plugs (well, tt),
        subst (λ (q : Progress). Covers os q.on_board) same covers,
      )

  serve-Carries :
      (o : Order) (os : List Order) (s : Progress) (x : Step × Progress)
      → AllSound (o ∷ os)
      → serve p v o s ≡ ok x
      → Covers (o ∷ os) s.on_board
      → CarriesWell x.0 × Covers os x.1.on_board
  serve-Carries o os s x sound h holds =
      let (r, e, is_served) = serve-reading p v o s x h in
      let covers = serve_load-Covers o os s.on_board sound.0 holds in
      subst (λ (y : Step × Progress). CarriesWell y.0 × Covers os y.1.on_board) is_served
        (unfold served in (Covers-not_negative os (serve_load o s.on_board) sound.1 covers, covers))

  serve_all-Carries :
      (charges : List (ℕ × ChargeStop)) (i : ℕ) (os : List Order) (s s' : Progress)
      (steps : List Step)
      → AllSound os
      → serve_all p v charges i os s ≡ ok (steps, s')
      → Covers os s.on_board
      → Carries [] steps s'
  unfolding serve_all
  serve_all-Carries charges i [] s s' steps sound h holds =
      let (no_steps, same) = pair_parts (ok-injective h) in
      (
        subst (All CarriesWell) no_steps tt,
        subst (λ (q : Progress). Covers [] q.on_board) same holds,
      )
  serve_all-Carries charges i (o ∷ os) s s' steps sound h holds =
      let ((plug, s₁), e₁, h₁) =
        >>=-eq-ok (maybe_charge p v (charge_at i charges) s) (then_serve p v charges i o os) h in
      let (x, e₂, h₂) = >>=-eq-ok (serve p v o s₁) (then_rest p v charges i os plug) h₁ in
      let ((later, s₃), e₃, h₃) =
        >>=-eq-ok (serve_all p v charges (i + 1) os x.1) (then_step p v charges plug x.0) h₂ in
      let (plug_well, covers₁) =
        maybe_charge-Carries (charge_at i charges) (o ∷ os) s s₁ plug sound e₁ holds in
      let (well, covers₂) = serve-Carries o os s₁ x sound e₂ covers₁ in
      let (later_well, covers₃) =
        serve_all-Carries charges (i + 1) os x.1 s₃ later sound.1 e₃ covers₂ in
      let (lists, ends) = pair_parts (ok-injective h₃) in
      (
        subst (All CarriesWell) lists
            (append-All CarriesWell plug (x.0 ∷ later) plug_well (well, later_well)),
        subst (λ (q : Progress). Covers [] q.on_board) ends covers₃,
      )

  end_step-Carries :
      (s : Progress) (last : Step)
      → end_step p v s ≡ ok last
      → Covers [] s.on_board
      → CarriesWell last
  end_step-Carries s last h holds =
      let (l, taken, metres, soc, e₁, e₂, e₃, e₄, same) = end_step-found p v s last h in
      subst CarriesWell (ok-injective same) (Covers-not_negative [] s.on_board tt holds)

found-IsSound :
    (os : List Order) (i : String) (o : Order)
    → AllSound os
    → find_order os i ≡ ok o
    → IsSound o.quantities
unfolding find_order
found-IsSound [] i o sound h = cc
found-IsSound (k ∷ ks) i o sound h = elim (Bool-cases (str_eq k.id i)) [
  | inl same ↦ subst (λ (x : Order). IsSound x.quantities) (ok-injective (rw same at h)) sound.0
  | inr other ↦ found-IsSound ks i o sound.1 (rw other at h)
]

module _ (p : Problem) (sound : AllSound p.orders) where
  orders-AllSound :
      (ids : List String) (os : List Order) → map_result (order p) ids ≡ ok os → AllSound os
  orders-AllSound [] os h = subst AllSound (ok-injective h) tt
  orders-AllSound (i ∷ ids) os h =
      let (o, e, h₁) = >>=-eq-ok (order p i) (then_orders p ids) h in
      let (rest, e', h₂) = >>=-eq-ok (map_result (order p) ids) (cons_to p o) h₁ in
      subst AllSound (ok-injective h₂)
        (found-IsSound p.orders i o sound (unfold order in e), orders-AllSound ids rest e')

  -- For orders whose quantities are dicts without negative amounts: at every step of a timeline that
  -- is built, with or without charges, no dimension of the load is negative.
  pub timeline-CarriesWell :
      (i : String) (ids : List String) (start : Option ℤ) (charges : List (ℕ × ChargeStop))
      (timeline : List Step)
      → build_timeline p i ids start charges ≡ ok timeline
      → All CarriesWell timeline
  unfolding build_timeline
  timeline-CarriesWell i ids start charges timeline h =
      let (v, e₁, h₁) = >>=-eq-ok (vehicle p i) (from_vehicle p ids start charges) h in
      let (os, e₂, h₂) =
        >>=-eq-ok (map_result (order p) ids) (from_orders p ids start charges v) h₁ in
      let (l, steps, s', last, e₃, e₄, e₅, same) =
        build_timeline-inv p i ids start charges v os timeline e₁ e₂ h in
      let all_sound = orders-AllSound ids os e₂ in
      let covers = initial_load-Covers os in
      let (well, covers') =
        serve_all-Carries p v charges 0 os (at_start p v os start l) s' steps all_sound e₄ covers in
      subst (All CarriesWell) same (
        Covers-not_negative os (initial_load os) all_sound covers,
        append-All CarriesWell steps (last ∷ []) well (end_step-Carries p v s' last e₅ covers', tt),
      )
