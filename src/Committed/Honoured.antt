-- ===== src/Committed/Honoured.antt =====
-- The locks of `commit_locks` (vrp/committed.py), judged on the plan that they come from by
-- `_check_locks` (vrp/verify/verifier.py).
use mathlib.Core.List.{append_assoc}
use osrm_microservice.Prelude.{
  ◌≡◌, refl, sym, ◌∙◌, subst, ◌⊎◌, inl, inr, Bool, true, false, Bool-cases, ◌&&◌, not, none, some,
  List, [], ◌∷◌, ◌++◌, map, keep, All, append-All, if◌then◌else◌, String, str_eq, member,
  all_distinct, lookup, insert, lookup-insert-same, lookup-insert-other, ℤ, ◌≤ℤ◌, ltb_ℤ, leb_ℤ, pos,
  ≤ℤ→ltb-false, Result, ok, ok-injective, >>=-eq-ok, require, value_error,
}
use osrm_microservice.Model.Problem.{Problem}
use osrm_microservice.Model.Instruction.{Lock}
use osrm_microservice.Model.Plan.{Step, Route, Solution, named}
use osrm_microservice.Verify.Findings.{Violation, each, gather}
use osrm_microservice.Verify.Coverage.{order_of}
use osrm_microservice.Verify.Locks.{
  served_on, sequences, Sequences, route_of, starts_with, pinned, early, honours, check_one_lock,
  check_locks,
}
use osrm_microservice.Committed.{
  committed_prefix, freeze_lock, lock_if_any, prefix_locks, commit_locks,
}
use osrm_microservice.Committed.Prefix.{IsNamed, InOrder, IsHeld, starts_with-prefix, prefix-IsHeld}

-- A loop of checks that find nothing finds nothing.
each-none :
    {A : Type 0} (f : A → Result (List Violation)) (xs : List A)
    → All (λ x. f x ≡ ok []) xs
    → each f xs ≡ ok []
each-none f [] h = refl
each-none f (x ∷ xs) h = rw (h.0, each-none f xs h.1) refl

abbrev pub vehicle_ids : List Route → List String
vehicle_ids rs = map (λ r. r.vehicle_id) rs

sequences-other :
    (v : String) (rs : List Route) (seen : Sequences)
    → member v (vehicle_ids rs) ≡ false
    → lookup v (sequences rs seen) ≡ lookup v seen
unfolding sequences member
sequences-other v [] seen h = refl
sequences-other v (r ∷ rs) seen h = elim (Bool-cases (str_eq r.vehicle_id v)) [
  | inl e ↦ absurd (taken (rw e at h))
  | inr e ↦
      sequences-other v rs (insert r.vehicle_id (served_on r) seen) (rw e at h)
      ∙ lookup-insert-other v r.vehicle_id (served_on r) seen e
]
  where
    taken : true ≡ false → ⊥
    taken e = cc

distinct-parts : (b rest : Bool) → (if b then false else rest) ≡ true → (b ≡ false) × (rest ≡ true)
distinct-parts true rest h = cc
distinct-parts false rest h = (refl, h)

-- With one route for each vehicle, each is found with the orders of its route.
sequences-found :
    (rs : List Route) (seen : Sequences)
    → all_distinct (vehicle_ids rs) ≡ true
    → All (λ r. lookup r.vehicle_id (sequences rs seen) ≡ some (served_on r)) rs
unfolding all_distinct sequences
sequences-found [] seen h = tt
sequences-found (r ∷ rs) seen h =
    let (fresh, rest) =
      distinct-parts (member r.vehicle_id (vehicle_ids rs)) (all_distinct (vehicle_ids rs)) h in
    let seen' = insert r.vehicle_id (served_on r) seen in
    (
      sequences-other r.vehicle_id rs seen' fresh
          ∙ lookup-insert-same r.vehicle_id (served_on r) seen,
      sequences-found rs seen' rest,
    )

member-left : (i : String) (xs ys : List String) → member i xs ≡ true → member i (xs ++ ys) ≡ true
unfolding member
member-left i [] ys h = cc
member-left i (x ∷ xs) ys h = elim (Bool-cases (str_eq x i)) [
  | inl e ↦ rw e refl
  | inr e ↦ rw e (member-left i xs ys (rw e at h))
]

member-right : (i : String) (xs ys : List String) → member i ys ≡ true → member i (xs ++ ys) ≡ true
unfolding member
member-right i [] ys h = h
member-right i (x ∷ xs) ys h = elim (Bool-cases (str_eq x i)) [
  | inl e ↦ rw e refl
  | inr e ↦ rw e (member-right i xs ys h)
]

-- A route whose orders are named and whose steps start in order.
abbrev pub IsOrderly : Route → Type 0
IsOrderly r = All IsNamed r.steps × InOrder r.steps

module _ (p : Problem) (s : Solution) (now : ℤ) where
  abbrev seen : Sequences
  seen = sequences s.routes []

  abbrev carriers : List (String × String)
  carriers = route_of s.routes []

  abbrev Honoured : Lock → Type 0
  Honoured k = check_one_lock p s carriers seen k ≡ ok []

  prefix-Honoured :
      (r : Route)
      → lookup r.vehicle_id seen ≡ some (served_on r)
      → IsOrderly r
      → (ids : List String) → committed_prefix r now true none ≡ ids
      → All Honoured (lock_if_any r.vehicle_id ids)
  unfolding check_one_lock honours committed_prefix served_on
  prefix-Honoured r found orderly [] e = tt
  prefix-Honoured r found orderly (i ∷ ids) e =
      let kept =
        subst (λ x. starts_with (served_on r) x ≡ true) e
          (starts_with-prefix now true none r.steps orderly.0) in
      (rw (found, kept) refl, tt)

  prefixes-Honoured :
      (rs : List Route)
      → All (λ r. lookup r.vehicle_id seen ≡ some (served_on r)) rs
      → All IsOrderly rs
      → All Honoured (prefix_locks rs now)
  unfolding prefix_locks
  prefixes-Honoured [] found orderly = tt
  prefixes-Honoured (r ∷ rs) found orderly =
      append-All Honoured (lock_if_any r.vehicle_id (committed_prefix r now true none))
        (prefix_locks rs now)
        (prefix-Honoured r found.0 orderly.0 (committed_prefix r now true none) refl)
        (prefixes-Honoured rs found.1 orderly.1)

  -- What the prefix locks pin.
  abbrev Pinned : Route → List Lock → Type 0
  Pinned r ks =
      (i : String)
      → member i (committed_prefix r now true none) ≡ true
      → member i (pinned ks) ≡ true

  pin-first :
      (v i : String) (ids : List String) (ks : List Lock)
      → member i ids ≡ true
      → member i (pinned (lock_if_any v ids ++ ks)) ≡ true
  unfolding pinned
  pin-first v i [] ks h = absurd (nothing_in i h)
    where
      nothing_in : (i : String) → member i [] ≡ true → ⊥
      nothing_in i h = none_there (unfold member in h)
        where
          none_there : false ≡ true → ⊥
          none_there e = cc
  pin-first v i (j ∷ ids) ks h = member-left i (j ∷ ids) (gather _ ks) h

  pin-later :
      (v i : String) (ids : List String) (ks : List Lock)
      → member i (pinned ks) ≡ true
      → member i (pinned (lock_if_any v ids ++ ks)) ≡ true
  unfolding pinned
  pin-later v i [] ks h = h
  pin-later v i (j ∷ ids) ks h = member-right i (j ∷ ids) (gather _ ks) h

  all-Pinned :
      (rs : List Route) (ks : List Lock) → All (λ r. Pinned r (prefix_locks rs now ++ ks)) rs
  unfolding prefix_locks
  all-Pinned [] ks = tt
  all-Pinned (r ∷ rs) ks =
      subst (λ locks. All (λ x. Pinned x locks) (r ∷ rs))
        (sym (
          append_assoc (lock_if_any r.vehicle_id (committed_prefix r now true none))
            (prefix_locks rs now) ks))
        (
          (λ i h.
              pin-first r.vehicle_id i (committed_prefix r now true none)
                (prefix_locks rs now ++ ks) h),
          later rs (all-Pinned rs ks),
        )
    where
      later :
          (xs : List Route)
          → All (λ x. Pinned x (prefix_locks rs now ++ ks)) xs
          → All
              (λ x. Pinned x (
                lock_if_any r.vehicle_id (committed_prefix r now true none)
                ++ (prefix_locks rs now ++ ks)))
              xs
      later [] h = tt
      later (x ∷ xs) h = (
        λ i m.
            pin-later r.vehicle_id i (committed_prefix r now true none) (prefix_locks rs now ++ ks)
              (h.0 i m),
        later xs h.1,
      )

  -- Nothing that starts before now is left unpinned.
  module _ (held : List String) where
    abbrev loose : Step → List String
    loose step =
        keep (λ i. ltb_ℤ step.start_service now && not (member i held)) (named step.order_id)

    none-loose :
        (r : Route)
        → ((i : String) → member i (committed_prefix r now true none) ≡ true → member i held ≡ true)
        → (steps : List Step) → All IsNamed steps
        → All (IsHeld now true (committed_prefix r now true none)) steps
        → gather loose steps ≡ []
    none-loose r pins [] names h = refl
    none-loose r pins (step ∷ steps) names h =
        rw (names.0, first (order_of step.order_id) h.0) (none-loose r pins steps names.1 h.1)
      where
        first :
            (ids : List String)
            → (now ≤ℤ step.start_service)
              ⊎ All (λ i. member i (committed_prefix r now true none) ≡ true) ids
            → keep (λ i. ltb_ℤ step.start_service now && not (member i held)) ids ≡ []
        first [] u = refl
        first (i ∷ ids) (inl late) =
            rw (≤ℤ→ltb-false now step.start_service late) (first ids (inl late))
        first (i ∷ ids) (inr m) =
            rw (pins i m.0) (drop (ltb_ℤ step.start_service now) (first ids (inr m.1)))
          where
            drop :
                (b : Bool) {rest : List String}
                → rest ≡ []
                → (if b && false then i ∷ rest else rest) ≡ []
            drop true e = e
            drop false e = e

    early-none :
        (rs : List Route)
        → All
            (λ r.
              (i : String)
              → member i (committed_prefix r now true none) ≡ true
              → member i held ≡ true)
            rs
        → All IsOrderly rs
        → early rs now held ≡ []
    unfolding early
    early-none [] pins orderly = refl
    early-none (r ∷ rs) pins orderly =
        rw
          (none-loose r pins.0 r.steps orderly.0.0
            (unfold committed_prefix in prefix-IsHeld now true none r.steps orderly.0.1))
          (early-none rs pins.1 orderly.1)

  abbrev with_freeze : List Lock
  with_freeze = prefix_locks s.routes now ++ freeze_lock now ∷ []

  freeze-Honoured : with_freeze ≡ p.locks → All IsOrderly s.routes → Honoured (freeze_lock now)
  unfolding check_one_lock honours
  freeze-Honoured same orderly =
      let pins =
        subst (λ ks. All (λ r. Pinned r ks) s.routes) same
          (all-Pinned s.routes (freeze_lock now ∷ [])) in
      rw (early-none (pinned p.locks) s.routes pins orderly) refl

  -- For a plan with one route for each vehicle, whose steps start in order and whose orders have a
  -- text: whenever the locks of the instance are those that commit the plan at an instant, the
  -- verifier finds that the plan satisfies every one of them, the freeze included.
  pub commit_locks-honoured :
      all_distinct (vehicle_ids s.routes) ≡ true
      → All IsOrderly s.routes
      → commit_locks s now ≡ ok p.locks
      → check_locks p s ≡ ok []
  unfolding check_locks commit_locks
  commit_locks-honoured one_each orderly h =
      let (u, e, h₁) =
        >>=-eq-ok (require (leb_ℤ (pos 0) now) value_error) (λ _. ok with_freeze) h in
      let same = ok-injective h₁ in
      each-none (check_one_lock p s carriers seen) p.locks (
        subst (All Honoured) same (
          append-All Honoured (prefix_locks s.routes now) (freeze_lock now ∷ [])
            (prefixes-Honoured s.routes (sequences-found s.routes [] one_each) orderly)
            (freeze-Honoured same orderly, tt)))
