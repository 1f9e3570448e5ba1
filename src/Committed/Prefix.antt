-- ===== src/Committed/Prefix.antt =====
-- The committed prefix of vrp/committed.py on one route.
use osrm_microservice.Prelude.{
  arith, ◌≡◌, refl, sym, subst, ◌⊎◌, inl, inr, Bool, true, Bool-cases, ◌&&◌, Option, none, some,
  List, [], ◌∷◌, ◌++◌, All, if◌then◌else◌, String, str_eq, eq_refl, member, ℤ, ◌≤ℤ◌, leb_ℤ,
  leb-false→<ℤ,
}
use osrm_microservice.Model.Plan.{Step, named}
use osrm_microservice.Verify.Findings.{gather}
use osrm_microservice.Verify.Coverage.{order_of}
use osrm_microservice.Verify.Locks.{starts_with}
use osrm_microservice.Committed.{has_left, prefix_from}

-- An order that a step names has a text.
abbrev pub IsNamed : Step → Type 0
IsNamed step = named step.order_id ≡ order_of step.order_id

-- No step starts before one that comes earlier in the route.
abbrev pub InOrder : List Step → Type 0
InOrder [] = Unit
InOrder (a ∷ later) = All (λ b. a.start_service ≤ℤ b.start_service) later × InOrder later

member-here : (i : String) (rest : List String) → member i (i ∷ rest) ≡ true
unfolding member
member-here i rest = rw (eq_refl i) refl

member-later :
    (i j : String) (rest : List String) → member j rest ≡ true → member j (i ∷ rest) ≡ true
unfolding member
member-later i j rest h = elim (Bool-cases (str_eq i j)) [ inl e ↦ rw e refl | inr e ↦ rw e h ]

module _ (now : ℤ) (driving : Bool) where
  -- What one step adds in front of what the later steps commit.
  abbrev then_prefix : Step → Option ℤ → Option String → List String → List String
  then_prefix step left none rest = rest
  then_prefix step left (some i) rest =
      if leb_ℤ step.start_service now
      then i ∷ rest
      else if driving && has_left left now
      then i ∷ []
      else []

  prefix-cons :
      (left : Option ℤ) (step : Step) (steps : List Step)
      → prefix_from now driving left (step ∷ steps)
        ≡ then_prefix step left step.order_id (prefix_from now driving (some step.departure) steps)
  unfolding prefix_from
  prefix-cons left step steps = same step.order_id
    where
      same :
          (o : Option String)
          → (elim o [
            | none ↦ prefix_from now driving (some step.departure) steps
            | some i ↦
                let rest = prefix_from now driving (some step.departure) steps in
                if leb_ℤ step.start_service now
                then i ∷ rest
                else if driving && has_left left now
                then i ∷ []
                else []
          ])
            ≡ then_prefix step left o (prefix_from now driving (some step.departure) steps)
      same none = refl
      same (some i) = refl

  starts_with-then :
      (step : Step) (left : Option ℤ) (o : Option String) (served rest : List String)
      → starts_with served rest ≡ true
      → starts_with (order_of o ++ served) (then_prefix step left o rest) ≡ true
  unfolding starts_with
  starts_with-then step left none served rest h = h
  starts_with-then step left (some i) served rest h =
      elim (Bool-cases (leb_ℤ step.start_service now)) [
        | inl e ↦ rw (e, eq_refl i) h
        | inr e ↦ elim (Bool-cases (driving && has_left left now)) [
          | inl d ↦ rw (e, d, eq_refl i) refl
          | inr d ↦ rw (e, d) refl
        ]
      ]

  pub starts_with-prefix :
      (left : Option ℤ) (steps : List Step)
      → All IsNamed steps
      → starts_with
          (gather (λ step. named step.order_id) steps)
          (prefix_from now driving left steps)
        ≡ true
  starts_with-prefix left [] names = unfold starts_with prefix_from in refl
  starts_with-prefix left (step ∷ steps) names =
      rw (names.0, prefix-cons left step steps)
        (starts_with-then step left step.order_id (gather (λ step. named step.order_id) steps)
          (prefix_from now driving (some step.departure) steps)
          (starts_with-prefix (some step.departure) steps names.1))

  -- A step that has an order starts no earlier than now, or its order is committed.
  abbrev pub IsHeld : List String → Step → Type 0
  IsHeld held step =
      (now ≤ℤ step.start_service) ⊎ (All (λ i. member i held ≡ true) (order_of step.order_id))

  IsHeld-more : (i : String) (rest : List String) (x : Step) → IsHeld rest x → IsHeld (i ∷ rest) x
  IsHeld-more i rest x (inl late) = inl late
  IsHeld-more i rest x (inr held) = inr (more (order_of x.order_id) held)
    where
      more :
          (js : List String)
          → All (λ j. member j rest ≡ true) js
          → All (λ j. member j (i ∷ rest) ≡ true) js
      more [] h = tt
      more (j ∷ js) h = (member-later i j rest h.0, more js h.1)

  IsHeld-then :
      (step : Step) (left : Option ℤ) (o : Option String) (rest : List String) (x : Step)
      → step.start_service ≤ℤ x.start_service
      → IsHeld rest x
      → IsHeld (then_prefix step left o rest) x
  IsHeld-then step left none rest x le h = h
  IsHeld-then step left (some i) rest x le h = elim (Bool-cases (leb_ℤ step.start_service now)) [
    | inl e ↦ rw e (IsHeld-more i rest x h)
    | inr e ↦ inl (omega (arith, leb-false→<ℤ step.start_service now e))
  ]

  IsHeld-first :
      (step : Step) (left : Option ℤ) (o : Option String) (rest : List String)
      → (now ≤ℤ step.start_service)
        ⊎ All (λ i. member i (then_prefix step left o rest) ≡ true) (order_of o)
  IsHeld-first step left none rest = inr tt
  IsHeld-first step left (some i) rest = elim (Bool-cases (leb_ℤ step.start_service now)) [
    | inl e ↦ inr (rw e (member-here i rest, tt))
    | inr e ↦ inl (omega (arith, leb-false→<ℤ step.start_service now e))
  ]

  IsHeld-all :
      (step : Step) (left : Option ℤ) (rest : List String) (xs : List Step)
      → All (λ x. step.start_service ≤ℤ x.start_service) xs
      → All (IsHeld rest) xs
      → All (IsHeld (then_prefix step left step.order_id rest)) xs
  IsHeld-all step left rest [] le h = tt
  IsHeld-all step left rest (x ∷ xs) le h =
      (IsHeld-then step left step.order_id rest x le.0 h.0, IsHeld-all step left rest xs le.1 h.1)

  pub prefix-IsHeld :
      (left : Option ℤ) (steps : List Step)
      → InOrder steps
      → All (IsHeld (prefix_from now driving left steps)) steps
  prefix-IsHeld left [] order = tt
  prefix-IsHeld left (step ∷ steps) order =
      let rest = prefix_from now driving (some step.departure) steps in
      subst (λ held. All (IsHeld held) (step ∷ steps)) (sym (prefix-cons left step steps))
        (
          IsHeld-first step left step.order_id rest,
          IsHeld-all step left rest steps order.0
              (prefix-IsHeld (some step.departure) steps order.1),
        )
