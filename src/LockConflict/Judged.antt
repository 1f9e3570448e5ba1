-- ===== src/LockConflict/Judged.antt =====
-- The stages of pre-flight's diagnosis of an order (vrp/diagnose.py), on a smaller and on a larger
-- fleet.
use osrm_microservice.Prelude.{
  arith, ℕ, ◌≤◌, ◌≡◌, refl, sym, ◌∙◌, subst, inl, inr, Bool, true, false, Bool-cases, ◌||◌, not,
  ltb, none, some, List, [], ◌∷◌, any, keep, length, count_if, if◌then◌else◌, pos, ok, ok-injective,
}
use osrm_microservice.Model.Stop.{StopSpec}
use osrm_microservice.Model.Window.{hard_windows}
use osrm_microservice.Model.Order.{Order, is_empty}
use osrm_microservice.Model.Vehicle.{Vehicle}
use osrm_microservice.Model.Problem.{Problem}
use osrm_microservice.Evaluator.Legal.{fits}
use osrm_microservice.Diagnose.{
  Reason, any_result, stop_for, can_reach, duty_fits, is_enemy, forced_together, depot_holds,
  released_late, judge_usable, judge_stocked, judge_fleet, class_given,
}
use osrm_microservice.LockConflict.Fleets.{Within, keep-Within, not_lost}
use osrm_microservice.LockConflict.Stages.{
  usable-none, usable-some, stocked-cases, fleet-none, fleet-some, clash,
}

length-count : (a : List Vehicle) → length a ≡ count_if (λ v. true) a
length-count [] = refl
length-count (v ∷ a) = omega (arith, length-count a)

any-count : (f : Vehicle → Bool) (a : List Vehicle) → any f a ≡ true → 1 ≤ count_if f a
any-count f [] h = cc
any-count f (v ∷ a) h = elim (Bool-cases (f v)) [
  | inl e ↦ rw e (omega arith)
  | inr e ↦ rw e (any-count f a (rw e at h))
]

count-any : (f : Vehicle → Bool) (a : List Vehicle) → 1 ≤ count_if f a → any f a ≡ true
count-any f [] h = absurd (omega arith)
count-any f (v ∷ a) h = elim (Bool-cases (f v)) [
  | inl e ↦ rw e refl
  | inr e ↦ rw e (count-any f a (rw e at h))
]

any-Within :
    (f : Vehicle → Bool) (a b : List Vehicle) → Within a b → any f a ≡ true → any f b ≡ true
any-Within f a b w h = count-any f b (omega (arith, w f, any-count f a h))

module _ (p : Problem) (o : Order) where
  forced-Within :
      (a b : List Vehicle)
      → Within a b
      → forced_together p o a ≡ false
      → forced_together p o b ≡ true
      → ⊥
  unfolding forced_together
  forced-Within a b w ha hb =
      smaller (any (λ other. not (is_empty (class_given other.order_class))) p.orders) (length a)
        (length b) (any (is_enemy o) p.orders)
        (omega (arith, length-count a, length-count b, w (λ v. true))) ha hb
    where
      smaller :
          (c : Bool) (m n : ℕ) (e : Bool)
          → m ≤ n
          → (if not c || ltb 1 m then false else e) ≡ false
          → (if not c || ltb 1 n then false else e) ≡ true
          → ⊥
      smaller c m n e le ha hb = ground arith

  usable-Within :
      (a b : List Vehicle) (c : Reason)
      → Within a b
      → judge_usable p o a ≡ ok none
      → judge_usable p o b ≡ ok (some c)
      → ⊥
  unfolding judge_usable
  usable-Within a b c w ha hb =
      let reach = can_reach p o (pos 0) in
      let (reached, rested, apart) =
        usable-none (any_result reach a) (any_result (duty_fits p o) a) (forced_together p o a)
          ha in
      elim (usable-some (any_result reach b) (any_result (duty_fits p o) b) (forced_together p o b)
        c hb) [
          | inl n ↦ not_lost reach a b w reached n
          | inr (inl n) ↦ not_lost (duty_fits p o) a b w rested n
          | inr (inr n) ↦ forced-Within a b w apart n
        ]

  stocked-Within :
      (a b : List Vehicle) (c : Reason)
      → Within a b
      → judge_stocked p o a ≡ ok none
      → judge_stocked p o b ≡ ok (some c)
      → ⊥
  unfolding judge_stocked
  stocked-Within a b c w ha hb =
      elim (stocked-cases (any_result (depot_holds p o) a) (stop_for o) late
        (judge_usable p o (roomy a)) none ha) [
          | inl (n, e) ↦ no_reason e
          | inr (stocked, (x, at_x, inl (n, e))) ↦ no_reason e
          | inr (stocked, (x, at_x, inr (timely, rest_a))) ↦
              elim (stocked-cases (any_result (depot_holds p o) b) (stop_for o) late
                (judge_usable p o (roomy b)) (some c) hb) [
                  | inl (n, e) ↦ not_lost (depot_holds p o) a b w stocked n
                  | inr (some_b, (y, at_y, inl (tardy, e))) ↦
                      clash (late x)
                        (subst (λ z. late z ≡ true) (ok-injective (sym at_y ∙ at_x)) tardy) timely
                  | inr (some_b, (y, at_y, inr (timely_y, rest_b))) ↦
                      usable-Within (roomy a) (roomy b) c
                        (keep-Within (λ v. fits v o.quantities) (λ v. fits v o.quantities) a b
                          (λ v e. e) w)
                        rest_a rest_b
                ]
        ]
    where
      late : StopSpec → Bool
      late x = released_late o (hard_windows x.time_windows)

      roomy : List Vehicle → List Vehicle
      roomy = keep (λ v. fits v o.quantities)

      no_reason : {r : Reason} → none ≡ some r → ⊥
      no_reason e = cc

  pub fleet-Within :
      (a b : List Vehicle) (c : Reason)
      → Within a b
      → judge_fleet p o a ≡ ok none
      → judge_fleet p o b ≡ ok (some c)
      → ⊥
  unfolding judge_fleet
  fleet-Within a b c w ha hb =
      let (some_a, room_a, rest_a) =
        fleet-none (is_empty a) (any (λ v. fits v o.quantities) a) (judge_stocked p o a) ha in
      elim (fleet-some (is_empty b) (any (λ v. fits v o.quantities) b) (judge_stocked p o b) c hb) [
        | inl n ↦ no_fleet a b w some_a n
        | inr (inl n) ↦
            clash (any (λ v. fits v o.quantities) b)
              (any-Within (λ v. fits v o.quantities) a b w room_a) n
        | inr (inr h) ↦ stocked-Within a b c w rest_a h
      ]
    where
      no_fleet : (a b : List Vehicle) → Within a b → is_empty a ≡ false → is_empty b ≡ true → ⊥
      no_fleet [] b w ea eb = cc
      no_fleet (v ∷ a) [] w ea eb = omega (arith, w (λ x. true))
      no_fleet (v ∷ a) (u ∷ b) w ea eb = cc
