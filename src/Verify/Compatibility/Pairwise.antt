-- ===== src/Verify/Compatibility/Pairwise.antt =====
-- INV-10 of vrp/verify/verifier.py: the running sets of a route against every pair of its orders.
use osrm_microservice.Prelude.{
  ◌≡◌, refl, subst, Bool, true, false, Bool-cases, Option-cases, inl, inr, not, Option, none, some,
  List, [], ◌∷◌, ◌++◌, All, String, str_eq, member, is_subset, ℤ, Result, ok, ok-injective,
  >>=-eq-ok, ◌>>=◌,
}
use osrm_microservice.Model.Stop.{Location}
use osrm_microservice.Model.Order.{Order}
use osrm_microservice.Model.Vehicle.{Vehicle}
use osrm_microservice.Model.Problem.{Problem, location, order, vehicle}
use osrm_microservice.Model.Plan.{Step, Route}
use osrm_microservice.Model.Service.{in_classes, too_heavy, may_enter, has_skills_for}
use osrm_microservice.Verify.Findings.{Violation, inv_10, on_step}
use osrm_microservice.Verify.Findings.Clean.{append-empty, fails_if-not}
use osrm_microservice.Verify.Compatibility.{
  Aboard, empty_route, class_of, meets, clashes, take_aboard, in_access_class, outweighs, bars,
  step_clashes, check_aboard, check_compatibility,
}

-- Neither order forbids the class of the other.
abbrev pub Compatible : Order → Order → Type 0
Compatible a b =
    (meets (class_of b.order_class) a.incompatible_with ≡ false)
    × (meets b.incompatible_with (class_of a.order_class) ≡ false)

-- The orders that a route serves, each with the location.
abbrev pub Visits : Type 0
Visits = List (Order × Location)

abbrev pub visits : Problem → List Step → Result Visits
visits p [] = ok []
visits p (step ∷ steps) = elim step.order_id [
  | none ↦ visits p steps
  | some j ↦ do
    o ← order p j
    l ← location p step.location_id
    more ← visits p steps
    ok ((o, l) ∷ more)
]

-- Every order against all that come later.
abbrev pub Pairwise : Visits → Type 0
Pairwise [] = Unit
Pairwise (x ∷ later) = All (λ y. Compatible x.0 y.0) later × Pairwise later

-- The vehicle has the skills for the order and may enter the site.
abbrev pub Suits : Vehicle → Order × Location → Type 0
Suits v x = (has_skills_for v x.0 ≡ true) × (may_enter v x.1 ≡ true)

member-append :
    (x : String) (ys zs : List String)
    → member x (ys ++ zs) ≡ false
    → (member x ys ≡ false) × (member x zs ≡ false)
unfolding member
member-append x [] zs h = (refl, h)
member-append x (y ∷ ys) zs h = elim (Bool-cases (str_eq y x)) [
  | inl e ↦ absurd (taken (rw e at h))
  | inr e ↦ let (a, b) = member-append x ys zs (rw e at h) in (rw e a, b)
]
  where
    taken : true ≡ false → ⊥
    taken h = cc

meets-append :
    (xs ys zs : List String)
    → meets xs (ys ++ zs) ≡ false
    → (meets xs ys ≡ false) × (meets xs zs ≡ false)
unfolding meets
meets-append [] ys zs h = (refl, refl)
meets-append (x ∷ xs) ys zs h = elim (Bool-cases (member x (ys ++ zs))) [
  | inl e ↦ absurd (taken (rw e at h))
  | inr e ↦
      let (a, b) = member-append x ys zs e in
      let (c, d) = meets-append xs ys zs (rw e at h) in (rw (a, c) refl, rw (b, d) refl)
]
  where
    taken : true ≡ false → ⊥
    taken h = cc

one_access :
    (c : Option String) (l : Location) → in_classes c l ≡ in_access_class c l.access_classes
one_access none l = refl
one_access (some c) l = refl

one_limit : (weight limit : Option ℤ) → too_heavy limit weight ≡ outweighs weight limit
one_limit none none = refl
one_limit none (some limit) = refl
one_limit (some weight) none = refl
one_limit (some weight) (some limit) = refl

enters :
    (v : Vehicle) (l : Location)
    → bars l v ≡ false
    → outweighs v.gross_weight_kg l.max_vehicle_kg ≡ false
    → may_enter v l ≡ true
unfolding bars may_enter
enters v l access light =
    rw (one_access v.access_class l, one_limit v.gross_weight_kg l.max_vehicle_kg, access, light)
      refl

module _ (v : Vehicle) (l : Location) (o : Order) (s : Aboard) (x : Violation) where
  -- A step that raises no violation of INV-10.
  no_clash :
      step_clashes v l o s x ≡ []
      → Suits v (o, l)
        × (meets (class_of o.order_class) s.forbidden ≡ false)
        × (meets o.incompatible_with s.carried ≡ false)
  unfolding step_clashes clashes has_skills_for
  no_clash h =
      let (h₄, heavy) = append-empty _ _ h in
      let (h₃, barred) = append-empty _ _ h₄ in
      let (h₂, other) = append-empty _ _ h₃ in
      let (unskilled, class) = append-empty _ _ h₂ in
      (
        (
          skilled (is_subset o.required_skills v.skills) (fails_if-not _ _ unskilled),
          enters v l (fails_if-not _ _ barred) (fails_if-not _ _ heavy),
        ),
        fails_if-not _ _ class,
        fails_if-not _ _ other,
      )
    where
      skilled : (b : Bool) → not b ≡ false → b ≡ true
      skilled true h = refl
      skilled false h = cc

-- Orders that clash with nothing in the running sets.
abbrev Clear : Aboard → Order × Location → Type 0
Clear s x =
    (meets (class_of x.0.order_class) s.forbidden ≡ false)
    × (meets x.0.incompatible_with s.carried ≡ false)

-- What is clear of the sets after an order is compatible with it, and clear of the sets before it.
split-Clear :
    (o : Order) (s : Aboard) (xs : Visits)
    → All (Clear (take_aboard o s)) xs
    → All (λ y. Compatible o y.0) xs × All (Clear s) xs
unfolding take_aboard
split-Clear o s [] h = (tt, tt)
split-Clear o s (x ∷ xs) h =
    let (forbids, f) =
      meets-append (class_of x.0.order_class) o.incompatible_with s.forbidden h.0.0 in
    let (forbidden, c) =
      meets-append x.0.incompatible_with (class_of o.order_class) s.carried h.0.1 in
    let (later, before) = split-Clear o s xs h.1 in
    (((forbids, forbidden), later), ((f, c), before))

module _ (p : Problem) (i : String) (v : Vehicle) where
  -- What a route that raises no violation looks like, from the given sets on.
  abbrev Sound : Aboard → List Step → Type 0
  Sound s steps =
      (vs : Visits) × (visits p steps ≡ ok vs) × All (Suits v) vs × All (Clear s) vs × Pairwise vs

  module _ (step : Step) (steps : List Step) (s : Aboard) where
    abbrev with_rest : Order → Location → List Violation → Result (List Violation)
    with_rest o l more = ok (step_clashes v l o s (on_step inv_10 i step) ++ more)

    abbrev with_location : Order → Location → Result (List Violation)
    with_location o l = check_aboard p i v (take_aboard o s) steps >>= with_rest o l

    abbrev with_order : Order → Result (List Violation)
    with_order o = location p step.location_id >>= with_location o

    one_visit :
        (j : String) (o : Order) (l : Location) (vs : Visits)
        → step.order_id ≡ some j
        → order p j ≡ ok o
        → location p step.location_id ≡ ok l
        → visits p steps ≡ ok vs
        → visits p (step ∷ steps) ≡ ok ((o, l) ∷ vs)
    one_visit j o l vs e e₁ e₂ e₄ = rw (e, e₁, e₂, e₄) refl

  check_aboard-Sound :
      (steps : List Step) (s : Aboard) → check_aboard p i v s steps ≡ ok [] → Sound s steps
  unfolding check_aboard
  check_aboard-Sound [] s h = ([], refl, tt, tt, tt)
  check_aboard-Sound (step ∷ steps) s h = elim (Option-cases step.order_id) [
    | inl none_there ↦
        let (vs, e, suits, clear, pairs) = check_aboard-Sound steps s (rw none_there at h) in
        (vs, rw none_there e, suits, clear, pairs)
    | inr (j, e) ↦
        let h₀ = rw e at h in
        let (o, e₁, h₁) = >>=-eq-ok (order p j) (with_order step steps s) h₀ in
        let (l, e₂, h₂) =
          >>=-eq-ok (location p step.location_id) (with_location step steps s o) h₁ in
        let (more, e₃, h₃) =
          >>=-eq-ok (check_aboard p i v (take_aboard o s) steps) (with_rest step steps s o l) h₂ in
        let (here, later) =
          append-empty (step_clashes v l o s (on_step inv_10 i step)) more (ok-injective h₃) in
        let (suits, class, other) = no_clash v l o s (on_step inv_10 i step) here in
        let (vs, e₄, all_suit, clear, pairs) =
          check_aboard-Sound steps (take_aboard o s)
            (subst (λ r. check_aboard p i v (take_aboard o s) steps ≡ ok r) later e₃) in
        let (compatible, before) = split-Clear o s vs clear in
        (
          (o, l) ∷ vs,
          one_visit step steps s j o l vs e e₁ e₂ e₄,
          (suits, all_suit),
          ((class, other), before),
          (compatible, pairs),
        )
  ]

-- Whenever the verifier finds no violation of INV-10 on a route: its vehicle, its orders and their
-- locations are known, the vehicle has the skills for every order and may enter every location, and
-- of any two orders neither forbids the class of the other, whichever is loaded first.
pub check_compatibility-Pairwise :
    (p : Problem) (r : Route)
    → check_compatibility p r ≡ ok []
    → (v : Vehicle) × (vs : Visits) × (vehicle p r.vehicle_id ≡ ok v)
      × (visits p r.steps ≡ ok vs)
      × All (Suits v) vs
      × Pairwise vs
unfolding check_compatibility
check_compatibility-Pairwise p r h =
    let (v, e, h₁) =
      >>=-eq-ok (vehicle p r.vehicle_id) (λ v. check_aboard p r.vehicle_id v empty_route r.steps)
        h in
    let (vs, found, suits, clear, pairs) =
      check_aboard-Sound p r.vehicle_id v r.steps empty_route h₁ in
    (v, vs, e, found, suits, pairs)
