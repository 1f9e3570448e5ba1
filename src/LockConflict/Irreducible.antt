-- ===== src/LockConflict/Irreducible.antt =====
-- `minimal_conflict` of vrp/locks.py on pre-flight's own test of feasibility.
use osrm_microservice.Prelude.{
  ◌≡◌, ◌≢◌, refl, sym, ◌∙◌, ap, subst, inl, inr, Bool, true, false, Bool-cases, not, Option, none,
  some, List, [], ◌∷◌, ◌++◌, any, if◌then◌else◌, Result, ok, err, ok-injective, >>=-eq-ok, ◌>>=◌,
}
use osrm_microservice.Model.Order.{Order, is_empty}
use osrm_microservice.Model.Vehicle.{Vehicle}
use osrm_microservice.Model.Problem.{Problem}
use osrm_microservice.Model.Instruction.{Lock}
use osrm_microservice.Diagnose.{
  Reason, Finding, grounds, is_forbidden, diagnose_order, report, preflight_from, preflight,
}
use osrm_microservice.LockConflict.{
  replace_locks, is_deployable, is_feasible_under_locks, drop_needless, minimal_conflict,
}
use osrm_microservice.LockConflict.Fewer.{Fewer}
use osrm_microservice.LockConflict.Deletion.{filter-irreducible}
use osrm_microservice.LockConflict.Fleets.{any_more, free_with_fewer}
use osrm_microservice.LockConflict.Diagnosed.{own_findings, diagnosed_less}
use osrm_microservice.LockConflict.Stages.{clash}

-- Nothing is found for any of the orders.
empty_append {ℓ} :
    {A : Type ℓ} (xs ys : List A)
    → is_empty (xs ++ ys) ≡ true
    → (is_empty xs ≡ true) × (is_empty ys ≡ true)
empty_append [] ys h = (refl, h)
empty_append (x ∷ xs) ys h = cc

unreported :
    (p : Problem) (o : Order) (r : Option Reason) → is_empty (report p o r) ≡ true → r ≡ none
unreported p o none h = refl
unreported p o (some c) h = cc

abbrev verdict : Bool → Result (List Finding) → Result Bool
verdict can findings = if not can then ok false else do fs ← findings; ok (is_empty fs)

feasible-true :
    (can : Bool) (fs : Result (List Finding))
    → verdict can fs ≡ ok true
    → (can ≡ true) × ((xs : List Finding) × (fs ≡ ok xs) × (is_empty xs ≡ true))
feasible-true true (ok xs) e = (refl, (xs, refl, ok-injective e))
feasible-true true (err x) e = cc
feasible-true false fs e = cc

feasible-false :
    (can : Bool) (fs : Result (List Finding))
    → verdict can fs ≡ ok false
    → can ≡ true
    → (xs : List Finding) × (fs ≡ ok xs) × (is_empty xs ≡ false)
feasible-false true (ok xs) e can = (xs, refl, ok-injective e)
feasible-false true (err x) e can = cc
feasible-false false fs e can = cc

module _ (p : Problem) (less more : List Lock) (h : Fewer less more) where
  abbrev rest_of : List Lock → Order → List Order → Option Reason → Result (List Finding)
  rest_of ks o os reason = do
    later ← preflight_from (replace_locks p ks) os
    ok (report (replace_locks p ks) o reason ++ later)

  preflight_less :
      (os : List Order) (fs gs : List Finding)
      → preflight_from (replace_locks p more) os ≡ ok fs
      → preflight_from (replace_locks p less) os ≡ ok gs
      → is_empty fs ≡ true
      → is_empty gs ≡ true
  unfolding preflight_from
  preflight_less [] fs gs hf hg e = subst (λ x. is_empty x ≡ true) (ok-injective hg) refl
  preflight_less (o ∷ os) fs gs hf hg e =
      let q = replace_locks p more in
      let q' = replace_locks p less in
      let (r, diag, hf₁) = >>=-eq-ok (diagnose_order q o) (rest_of more o os) hf in
      let (later, pre, hf₂) = >>=-eq-ok (preflight_from q os) (λ x. ok (report q o r ++ x)) hf₁ in
      let (r', diag', hg₁) = >>=-eq-ok (diagnose_order q' o) (rest_of less o os) hg in
      let (later', pre', hg₂) =
        >>=-eq-ok (preflight_from q' os) (λ x. ok (report q' o r' ++ x)) hg₁ in
      let (none_here, none_later) =
        empty_append (report q o r) later
          (subst (λ x. is_empty x ≡ true) (sym (ok-injective hf₂)) e) in
      let fine = subst (λ x. diagnose_order q o ≡ ok x) (unreported q o r none_here) diag in
      subst (λ x. is_empty x ≡ true) (ok-injective hg₂)
        (unless o r' later' fine diag' (preflight_less os later later' pre pre' none_later))
    where
      unless :
          (o : Order) (r : Option Reason) (later : List Finding)
          → diagnose_order (replace_locks p more) o ≡ ok none
          → diagnose_order (replace_locks p less) o ≡ ok r
          → is_empty later ≡ true
          → is_empty (report (replace_locks p less) o r ++ later) ≡ true
      unless o none later fine d e = e
      unless o (some c) later fine d e = absurd (diagnosed_less p o less more c h fine d)

  deployable_less :
      is_deployable (replace_locks p more) ≡ true → is_deployable (replace_locks p less) ≡ true
  unfolding is_deployable
  deployable_less e = elim (Bool-cases (any (λ k. grounds k.kind) less)) [
    | inr n ↦ rw n refl
    | inl y ↦
        let grounded = any_more (λ k. grounds k.kind) less more h y in
        rw y (one_free p.vehicles (rw grounded at e))
  ]
    where
      one_free :
          (vs : List Vehicle)
          → any (λ v. not (is_forbidden more v)) vs ≡ true
          → any (λ v. not (is_forbidden less v)) vs ≡ true
      one_free [] e = e
      one_free (v ∷ vs) e = elim (Bool-cases (not (is_forbidden more v))) [
        | inl y ↦ rw (free_with_fewer less more v h y) refl
        | inr n ↦ elim (Bool-cases (not (is_forbidden less v))) [
          | inl y ↦ rw y refl
          | inr n' ↦ rw n' (one_free vs (rw n at e))
        ]
      ]

  pub feasible_less :
      is_feasible_under_locks (replace_locks p more) ≡ ok true
      → is_feasible_under_locks (replace_locks p less) ≢ ok false
  unfolding is_feasible_under_locks preflight
  feasible_less fine broken =
      let (can, (fs, found, empty)) =
        feasible-true (is_deployable (replace_locks p more))
          (preflight_from (replace_locks p more) p.orders) fine in
      let (gs, found', filled) =
        feasible-false (is_deployable (replace_locks p less))
          (preflight_from (replace_locks p less) p.orders) broken (deployable_less can) in
      clash (is_empty gs) (preflight_less p.orders fs gs found found' empty) filled

-- The test looks at no part of the problem that `_replace_locks` drops.
own_locks :
    (p : Problem) → is_feasible_under_locks p ≡ is_feasible_under_locks (replace_locks p p.locks)
unfolding is_feasible_under_locks is_deployable preflight
own_locks p = ap (λ x. verdict (is_deployable p) x) (own_findings p p.orders)

abbrev filtered : Problem → Bool → Result (List Lock)
filtered p unlocked = elim unlocked [
  | false ↦ ok []
  | true ↦ drop_needless (λ ks. is_feasible_under_locks (replace_locks p ks)) [] p.locks
]

abbrev search_in : Problem → Bool → Result (List Lock)
search_in p feasible = elim feasible [
  | true ↦ ok []
  | false ↦ do unlocked ← is_feasible_under_locks (replace_locks p []); filtered p unlocked
]

not_cons : (xs : List Lock) (k : Lock) (ys : List Lock) → [] ≡ xs ++ k ∷ ys → ⊥
not_cons [] k ys e = cc
not_cons (x ∷ xs) k ys e = cc

-- The locks that `minimal_conflict` reports leave some order without a vehicle when they are the
-- problem's only locks, and no longer do so without any one of them: `is_feasible_under_locks`
-- answers False for the reported locks, and never False for them less one (it may raise).
pub minimal_conflict-irreducible :
    (p : Problem) (core xs : List Lock) (k : Lock) (ys : List Lock)
    → minimal_conflict p ≡ ok core
    → core ≡ xs ++ k ∷ ys
    → (is_feasible_under_locks (replace_locks p core) ≡ ok false)
      × (is_feasible_under_locks (replace_locks p (xs ++ ys)) ≢ ok false)
unfolding minimal_conflict
minimal_conflict-irreducible p core xs k ys h split =
    let test = λ (ks : List Lock). is_feasible_under_locks (replace_locks p ks) in
    let (feasible, e, h₁) = >>=-eq-ok (is_feasible_under_locks p) (search_in p) h in
    let broken : feasible ≡ false = elim (Bool-cases feasible) [
      | inl y ↦ absurd (nothing (ok-injective (subst (λ b. search_in p b ≡ ok core) y h₁)))
      | inr n ↦ n
    ] in
    let (unlocked, e₂, h₂) =
      >>=-eq-ok (test []) (filtered p) (subst (λ b. search_in p b ≡ ok core) broken h₁) in
    let fine : unlocked ≡ true = elim (Bool-cases unlocked) [
      | inl y ↦ y
      | inr n ↦ absurd (nothing (ok-injective (subst (λ b. filtered p b ≡ ok core) n h₂)))
    ] in
    filter-irreducible test p.locks core xs k ys (λ less more f. feasible_less p less more f)
      (subst (λ b. filtered p b ≡ ok core) fine h₂)
      (sym (own_locks p) ∙ subst (λ b. is_feasible_under_locks p ≡ ok b) broken e) split
  where
    nothing : [] ≡ core → ⊥
    nothing e = not_cons xs k ys (e ∙ split)
