-- ===== src/Verify/Coverage/Once.antt =====
-- INV-1 and INV-2 of vrp/verify/verifier.py: what a plan that they accept serves.
use osrm_microservice.Prelude.{
  arith, ℕ, suc, ◌+◌, ◌<◌, ◌==◌, ltb, ltb→lt, ==-true→eq, length, length-append, ◌≡◌, refl, ◌∙◌, ap,
  ◌⊎◌, inl, inr, Bool, true, false, Bool-cases, ◌&&◌, not, Option, none, some, List, [], ◌∷◌, ◌++◌,
  map, All, if◌then◌else◌, String, str_eq, eq_iff, member,
}
use osrm_microservice.Model.Order.{Order, shipment}
use osrm_microservice.Model.Problem.{Problem}
use osrm_microservice.Model.Plan.{Step, Route, Solution, is_pickup, is_delivery}
use osrm_microservice.Verify.Findings.{Violation, inv_1, fails_if, on_order, gather}
use osrm_microservice.Verify.Findings.Clean.{append-empty, gather-All, fails_if-not}
use osrm_microservice.Verify.Coverage.{
  order_of, served_orders, count, expected, order_coverage, unknown_orders, Place, is_served_as,
  places_in, places, is_paired, pair_violations, shipment_pairing, check_coverage,
}

module _ (unassigned served : List String) where
  -- An order is listed as unassigned and never served, or served as often as its kind says.
  abbrev pub IsOnce : Order → Type 0
  IsOnce o =
      ((member o.id unassigned ≡ true) × (count o.id served ≡ 0))
      ⊎ ((member o.id unassigned ≡ false) × (count o.id served ≡ expected o.kind))

  order_coverage-IsOnce : (o : Order) → order_coverage unassigned served o ≡ [] → IsOnce o
  unfolding order_coverage
  order_coverage-IsOnce o h = elim (Bool-cases (member o.id unassigned)) [
    | inl listed ↦ inl (listed, never (count o.id served) (fails_if-not _ _ (rw listed at h)))
    | inr absent ↦ inr (
      absent,
      as_often (count o.id served) (expected o.kind) (on_order inv_1 o.id) (rw absent at h),
    )
  ]
    where
      never : (n : ℕ) → ltb 0 n ≡ false → n ≡ 0
      never n h = ground arith

      as_often :
          (n m : ℕ) (x : Violation)
          → (if n == 0 then x ∷ [] else fails_if (not (n == m)) x) ≡ []
          → n ≡ m
      as_often n m x h = elim (Bool-cases (n == 0)) [
        | inl e ↦ absurd (filled (rw e at h))
        | inr e ↦ elim (Bool-cases (n == m)) [
          | inl same ↦ ==-true→eq n m same
          | inr other ↦ absurd (filled (rw (e, other) at h))
        ]
      ]
        where
          filled : ◌≡◌ {A = List Violation} (x ∷ []) [] → ⊥
          filled h = cc

count-append : (i : String) (xs ys : List String) → count i (xs ++ ys) ≡ count i xs + count i ys
unfolding count
count-append i [] ys = omega arith
count-append i (x ∷ xs) ys = elim (Bool-cases (str_eq x i)) [
  | inl e ↦ rw e (omega (arith, count-append i xs ys))
  | inr e ↦ rw e (count-append i xs ys)
]

-- The places of an order are as many as the times that it is served.
places_in-count :
    (i v : String) (index : ℕ) (steps : List Step)
    → length (places_in i v index steps) ≡ count i (gather (λ step. order_of step.order_id) steps)
unfolding places_in count
places_in-count i v index [] = refl
places_in-count i v index (step ∷ steps) =
    by_order step.order_id (places_in i v (suc index) steps) (places_in-count i v (suc index) steps)
  where
    by_order :
        (o : Option String) (rest : List Place)
        → length rest ≡ count i (gather (λ step. order_of step.order_id) steps)
        → length (
            if is_served_as i o
            then record { vehicle_id = v; index = index; type = step.type } ∷ rest
            else rest)
          ≡ count i (order_of o ++ gather (λ step. order_of step.order_id) steps)
    by_order none rest same = same
    by_order (some j) rest same = elim (Bool-cases (str_eq j i)) [
      | inl e ↦ rw (e, count) (omega (arith, same))
      | inr e ↦ rw (e, count) same
    ]

places-count :
    (i : String) (rs : List Route)
    → length (places i rs)
      ≡ count i (gather (λ r. gather (λ step. order_of step.order_id) r.steps) rs)
unfolding places
places-count i [] = unfold count in refl
places-count i (r ∷ rs) =
    length-append (places_in i r.vehicle_id 0 r.steps) (places i rs)
    ∙ (let e = places_in-count i r.vehicle_id 0 r.steps in
        let e' = places-count i rs in
        rw
          (count-append i (gather (λ step. order_of step.order_id) r.steps)
            (gather (λ r. gather (λ step. order_of step.order_id) r.steps) rs))
          (omega (arith, e, e')))

-- The pickup and the delivery of an order, on one route and in this order.
pub record IsPaired (s : Solution) (o : Order) : Type 0 where
  pub pickup : Place
  pub delivery : Place
  pub all : places o.id s.routes ≡ pickup ∷ delivery ∷ []
  pub one_route : pickup.vehicle_id ≡ delivery.vehicle_id
  pub picks_up : is_pickup pickup.type ≡ true
  pub delivers : is_delivery delivery.type ≡ true
  pub in_order : pickup.index < delivery.index

of_not : (b : Bool) → not b ≡ false → b ≡ true
of_not true h = refl
of_not false h = cc

paired_parts :
    (a b c d : Bool) → (a && b && c && d) ≡ true → (a ≡ true) × (b ≡ true) × (c ≡ true) × (d ≡ true)
paired_parts true true true true h = (refl, refl, refl, refl)
paired_parts true true true false h = cc
paired_parts true true false d h = cc
paired_parts true false c d h = cc
paired_parts false b c d h = cc

module _ (s : Solution) (o : Order) where
  two_places-IsPaired :
      (ps : List Place)
      → places o.id s.routes ≡ ps
      → length ps ≡ 2
      → pair_violations o.id ps ≡ []
      → IsPaired s o
  unfolding pair_violations is_paired
  two_places-IsPaired [] e two h = absurd (omega arith)
  two_places-IsPaired (a ∷ []) e two h = absurd (omega arith)
  two_places-IsPaired (a ∷ b ∷ []) e two h =
      let (route, picks, delivers, after) =
        paired_parts (str_eq a.vehicle_id b.vehicle_id) (is_pickup a.type) (is_delivery b.type)
          (ltb a.index b.index) (of_not _ (fails_if-not _ _ h)) in
      record {
        pickup = a;
        delivery = b;
        all = e;
        one_route = (eq_iff a.vehicle_id b.vehicle_id).0 route;
        picks_up = picks;
        delivers = delivers;
        in_order = ltb→lt a.index b.index after;
      }
  two_places-IsPaired (a ∷ b ∷ c ∷ ps) e two h = absurd (omega arith)

  shipment-IsPaired :
      shipment_pairing s o ≡ []
      → o.kind ≡ shipment
      → count o.id (served_orders s) ≡ 2
      → IsPaired s o
  unfolding shipment_pairing served_orders
  shipment-IsPaired h kind twice =
      two_places-IsPaired (places o.id s.routes) refl (places-count o.id s.routes ∙ twice)
        (rw kind at h)

  twice_if_shipment :
      (unassigned : List String)
      → member o.id unassigned ≡ false
      → IsOnce unassigned (served_orders s) o
      → o.kind ≡ shipment
      → count o.id (served_orders s) ≡ 2
  twice_if_shipment unassigned absent (inl (listed, n)) kind = absurd (both listed absent)
    where
      both : {b : Bool} → b ≡ true → b ≡ false → ⊥
      both e n = cc
  twice_if_shipment unassigned absent (inr (n, same)) kind = same ∙ ap expected kind

map-All {ℓ} :
    {A : Type ℓ} {P Q : A → Type 0} (xs : List A) → ((x : A) → P x → Q x) → All P xs → All Q xs
map-All [] f h = tt
map-All (x ∷ xs) f h = (f x h.0, map-All xs f h.1)

zip-All {ℓ} :
    {A : Type ℓ} {P Q R : A → Type 0} (xs : List A)
    → ((x : A) → P x → Q x → R x)
    → All P xs
    → All Q xs
    → All R xs
zip-All [] f h k = tt
zip-All (x ∷ xs) f h k = (f x h.0 k.0, zip-All xs f h.1 k.1)

-- Whenever the verifier finds no violation of INV-1 and INV-2: each order of the problem is listed as
-- unassigned and served nowhere, or not listed and served as often as its kind says, once for a job
-- and twice for a shipment; every order that the plan serves is an order of the problem; and each
-- shipment that is not listed has exactly two places in the plan, its pickup and later its delivery
-- on the route of one vehicle.
pub check_coverage-IsOnce :
    (p : Problem) (s : Solution)
    → check_coverage p s ≡ []
    → All (IsOnce s.unassigned (served_orders s)) p.orders
      × All (λ i. member i (map (λ (o : Order). o.id) p.orders) ≡ true) (served_orders s)
      × All (λ o. o.kind ≡ shipment → member o.id s.unassigned ≡ false → IsPaired s o) p.orders
unfolding check_coverage unknown_orders
check_coverage-IsOnce p s h =
    let (h₀, paired) =
      append-empty
        (gather (order_coverage s.unassigned (served_orders s)) p.orders
          ++ unknown_orders (map (λ o. o.id) p.orders) (served_orders s))
        (gather (shipment_pairing s) p.orders) h in
    let (once, known) =
      append-empty (gather (order_coverage s.unassigned (served_orders s)) p.orders)
        (unknown_orders (map (λ o. o.id) p.orders) (served_orders s)) h₀ in
    let all_once =
      map-All p.orders (order_coverage-IsOnce s.unassigned (served_orders s))
        (gather-All (order_coverage s.unassigned (served_orders s)) p.orders once) in
    (
      all_once,
      map-All (served_orders s) (λ i e. of_not _ (fails_if-not _ _ e))
          (gather-All (λ i. fails_if (not (member i (map (λ o. o.id) p.orders))) (on_order inv_1 i))
            (served_orders s) known),
      zip-All p.orders
          (λ o e once kind absent.
            shipment-IsPaired s o e kind (twice_if_shipment s o s.unassigned absent once kind))
          (gather-All (shipment_pairing s) p.orders paired) all_once,
    )
