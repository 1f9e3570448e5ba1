-- ===== src/Verify/Findings/Clean.antt =====
-- Checks of vrp/verify/verifier.py that find nothing.
use osrm_microservice.Prelude.{
  ◌≡◌, refl, subst, Bool, true, false, List, [], ◌∷◌, ◌++◌, All, Result, ok, ok-injective,
  >>=-eq-ok, ◌>>=◌,
}
use osrm_microservice.Verify.Findings.{Violation, fails_if, gather, each}

pub append-empty {ℓ} : {A : Type ℓ} (xs ys : List A) → xs ++ ys ≡ [] → (xs ≡ []) × (ys ≡ [])
append-empty [] ys h = (refl, h)
append-empty (x ∷ xs) ys h = cc

-- A loop that finds nothing has found nothing at any element.
pub each-All :
    {A : Type 0} (f : A → Result (List Violation)) (xs : List A)
    → each f xs ≡ ok []
    → All (λ x. f x ≡ ok []) xs
each-All f [] h = tt
each-All f (x ∷ xs) h =
    let (found, e, h₁) = >>=-eq-ok (f x) (λ found. each f xs >>= λ more. ok (found ++ more)) h in
    let (more, e', same) = >>=-eq-ok (each f xs) (λ more. ok (found ++ more)) h₁ in
    let (none_here, none_later) = append-empty found more (ok-injective same) in
    (
      subst (λ r. f x ≡ ok r) none_here e,
      each-All f xs (subst (λ r. each f xs ≡ ok r) none_later e'),
    )

pub gather-All {ℓ} :
    {A B : Type ℓ} (f : A → List B) (xs : List A) → gather f xs ≡ [] → All (λ x. f x ≡ []) xs
gather-All f [] h = tt
gather-All f (x ∷ xs) h =
    let (none_here, none_later) = append-empty (f x) (gather f xs) h in
    (none_here, gather-All f xs none_later)

pub fails_if-not : (b : Bool) (x : Violation) → fails_if b x ≡ [] → b ≡ false
fails_if-not true x h = cc
fails_if-not false x h = refl
