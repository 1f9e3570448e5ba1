-- ===== src/Verify/Depots/Docks.antt =====
-- INV-12 of vrp/verify/verifier.py at every instant.
use osrm_microservice.Prelude.{
  arith, ℕ, suc, ◌+◌, ◌≡◌, refl, sym, ◌∙◌, subst, ◌⊎◌, inl, inr, Bool, true, false, Bool-cases,
  Option-cases, ◌&&◌, ◌||◌, some, given_or, List, [], ◌∷◌, ◌++◌, All, if◌then◌else◌, String, str_eq,
  eq_iff, lookup, insert, lookup-insert-same, lookup-insert-other, lookup-All, ℤ, pos, ◌≤ℤ◌, ltb_ℤ,
  ok, ok-injective,
}
use osrm_microservice.Model.Stop.{Location}
use osrm_microservice.Model.Problem.{Problem, location}
use osrm_microservice.Model.Plan.{Step, Route, Solution, is_start, is_reload}
use osrm_microservice.Verify.Findings.{inv_12, fails_if, on_plan}
use osrm_microservice.Verify.Depots.{
  Spans, occupy, occupy_all, occupancy, covers, at_bay, is_crowded, check_location_docks,
  check_docks,
}
use osrm_microservice.Verify.Depots.Sweep.{sweep_enough}
use osrm_microservice.Verify.Findings.Clean.{each-All}

-- A vehicle that stands at a bay of the location at the instant: it loads at the start or reloads.
abbrev pub is_at : String → ℤ → Step → Bool
is_at i instant step =
    str_eq step.location_id i
    && (is_start step.type || is_reload step.type)
    && covers instant (step.start_service, step.departure)

abbrev pub count_at : String → ℤ → List Step → ℕ
count_at i instant [] = 0
count_at i instant (step ∷ steps) =
    let rest = count_at i instant steps in if is_at i instant step then suc rest else rest

abbrev pub vehicles_at : String → ℤ → List Route → ℕ
vehicles_at i instant [] = 0
vehicles_at i instant (r ∷ rs) = count_at i instant r.steps + vehicles_at i instant rs

module _ (i : String) (instant : ℤ) where
  abbrev noted : List (String × Spans) → ℕ
  noted spans = at_bay instant (given_or (lookup i spans) [])

  at_bay-append :
      (xs : Spans) (span : ℤ × ℤ)
      → at_bay instant (xs ++ span ∷ [])
        ≡ at_bay instant xs + (if covers instant span then 1 else 0)
  unfolding at_bay
  at_bay-append [] span = elim (Bool-cases (covers instant span)) [ inl c ↦ rw c | inr n ↦ rw n ]
  at_bay-append (x ∷ xs) span =
      let rest = at_bay-append xs span in
      elim (Bool-cases (covers instant x)) [
        | inl c ↦ rw c (omega (arith, rest))
        | inr n ↦ rw n rest
      ]

  empty_span :
      (step : Step)
      → ltb_ℤ step.start_service step.departure ≡ false
      → covers instant (step.start_service, step.departure) ≡ false
  empty_span step h = ground arith

  occupied :
      (step : Step) (spans : List (String × Spans))
      → (is_start step.type || is_reload step.type) ≡ true
      → ltb_ℤ step.start_service step.departure ≡ true
      → noted (
          insert step.location_id
            (given_or (lookup step.location_id spans) []
              ++ (step.start_service, step.departure) ∷ [])
            spans)
        ≡ noted spans + (if is_at i instant step then 1 else 0)
  occupied step spans at_bays lasts = elim (Bool-cases (str_eq step.location_id i)) [
    | inl here ↦
        subst
          (λ k.
            noted (
              insert k (given_or (lookup k spans) [] ++ (step.start_service, step.departure) ∷ [])
                spans)
            ≡ noted spans + (if is_at i instant step then 1 else 0))
          (sym ((eq_iff step.location_id i).0 here))
          (rw
            (
              lookup-insert-same i
                  (given_or (lookup i spans) [] ++ (step.start_service, step.departure) ∷ []) spans,
              here,
              at_bays,
            )
            (at_bay-append (given_or (lookup i spans) []) (step.start_service, step.departure)))
    | inr elsewhere ↦
        rw
          (
            lookup-insert-other i step.location_id
                (given_or (lookup step.location_id spans) []
                  ++ (step.start_service, step.departure) ∷ [])
                spans elsewhere,
            elsewhere,
          )
          (omega arith)
  ]

  idle_step :
      (a b c : Bool) (n : ℕ) → (b ≡ false) ⊎ (c ≡ false) → n ≡ n + (if a && b && c then 1 else 0)
  idle_step true true true n (inl e) = cc
  idle_step true true true n (inr e) = cc
  idle_step true true false n h = omega arith
  idle_step true false c n h = omega arith
  idle_step false b c n h = omega arith

  occupy-noted :
      (step : Step) (spans : List (String × Spans))
      → noted (occupy step spans) ≡ noted spans + (if is_at i instant step then 1 else 0)
  unfolding occupy
  occupy-noted step spans = elim (Bool-cases (is_start step.type || is_reload step.type)) [
    | inr neither ↦ rw neither (
        idle_step (str_eq step.location_id i) false
          (covers instant (step.start_service, step.departure)) (noted spans) (inl refl))
    | inl at_bays ↦ elim (Bool-cases (ltb_ℤ step.start_service step.departure)) [
      | inr short ↦
          rw (at_bays, short, empty_span step short)
            (idle_step (str_eq step.location_id i) true false (noted spans) (inr refl))
      | inl lasts ↦
          let counted = occupied step spans at_bays lasts in
          rw (at_bays, lasts) (rw at_bays at counted)
    ]
  ]

  sum_steps :
      (n x rest : ℕ) (b : Bool)
      → x ≡ n + (if b then 1 else 0)
      → x + rest ≡ n + (if b then suc rest else rest)
  sum_steps n x rest true e = omega (arith, e)
  sum_steps n x rest false e = omega (arith, e)

  occupy_all-noted :
      (steps : List Step) (spans : List (String × Spans))
      → noted (occupy_all steps spans) ≡ noted spans + count_at i instant steps
  unfolding occupy_all
  occupy_all-noted [] spans = omega arith
  occupy_all-noted (step ∷ steps) spans =
      occupy_all-noted steps (occupy step spans)
      ∙ sum_steps (noted spans) (noted (occupy step spans)) (count_at i instant steps)
          (is_at i instant step) (occupy-noted step spans)

  occupancy-noted :
      (rs : List Route) (spans : List (String × Spans))
      → noted (occupancy rs spans) ≡ noted spans + vehicles_at i instant rs
  unfolding occupancy
  occupancy-noted [] spans = omega arith
  occupancy-noted (r ∷ rs) spans =
      omega (arith, occupancy-noted rs (occupy_all r.steps spans), occupy_all-noted r.steps spans)

module _ (p : Problem) (i : String) (l : Location) (capacity : ℤ) where
  docked-not_crowded :
      (spans : Spans)
      → location p i ≡ ok l
      → l.dock_capacity ≡ some capacity
      → check_location_docks p (i, spans) ≡ ok []
      → is_crowded capacity spans ≡ false
  unfolding check_location_docks
  docked-not_crowded spans found bays h =
      calm (is_crowded capacity spans) (ok-injective (rw (found, bays) at h))
    where
      calm : (b : Bool) → fails_if b (on_plan inv_12) ≡ [] → b ≡ false
      calm true e = cc
      calm false e = refl

  bays_kept :
      (all : List (String × Spans)) (instant : ℤ)
      → location p i ≡ ok l
      → l.dock_capacity ≡ some capacity
      → pos 0 ≤ℤ capacity
      → All (λ x. check_location_docks p x ≡ ok []) all
      → pos (noted i instant all) ≤ℤ capacity
  bays_kept all instant found bays some_bay checked = elim (Option-cases (lookup i all)) [
    | inl absent ↦ rw absent (unfold at_bay in omega arith)
    | inr (spans, e) ↦ rw e (
        sweep_enough capacity instant spans some_bay (
          docked-not_crowded spans found bays
            (lookup-All (λ x. check_location_docks p x ≡ ok []) i spans all checked e)))
  ]

  -- For a location whose number of bays is stated and not negative: whenever the verifier finds no
  -- violation of INV-12, at every instant at most that many vehicles of the plan stand at the
  -- location to load at their start or to reload, although only the instants at which one of them
  -- begins are looked at.
  pub check_docks-every_instant :
      (s : Solution) (instant : ℤ)
      → location p i ≡ ok l
      → l.dock_capacity ≡ some capacity
      → pos 0 ≤ℤ capacity
      → check_docks p s ≡ ok []
      → pos (vehicles_at i instant s.routes) ≤ℤ capacity
  unfolding check_docks
  check_docks-every_instant s instant found bays some_bay h =
      let checked = each-All (check_location_docks p) (occupancy s.routes []) h in
      let kept = bays_kept (occupancy s.routes []) instant found bays some_bay checked in
      let counted = occupancy-noted i instant s.routes [] in
      omega (arith, counted, kept, nothing_noted)
    where
      nothing_noted : noted i instant [] ≡ 0
      nothing_noted = unfold at_bay lookup in refl
