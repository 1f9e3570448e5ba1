-- ===== src/LockConflict/Fleets.antt =====
-- The fleet that pre-flight (vrp/diagnose.py) leaves an order, under more and under fewer locks.
use osrm_microservice.Prelude.{
  arith, ◌≤◌, ◌≡◌, refl, subst, inl, inr, Bool, true, false, Bool-cases, ◌&&◌, not, some, List, [],
  ◌∷◌, any, keep, count_if, Result, ok, >>=-eq-ok,
}
use osrm_microservice.Model.Order.{Order}
use osrm_microservice.Model.Vehicle.{Vehicle}
use osrm_microservice.Model.Instruction.{Lock}
use osrm_microservice.Verify.Locks.{same_text}
use osrm_microservice.Diagnose.{any_result, is_forbidden, allows, narrow}
use osrm_microservice.LockConflict.Fewer.{Fewer, none_left, left_out, kept_in}

-- Of every kind of vehicle, the second fleet has at least as many.
abbrev pub Within : List Vehicle → List Vehicle → Type 0
Within a b = (f : Vehicle → Bool) → count_if f a ≤ count_if f b

count-keep :
    (f g : Vehicle → Bool) (a : List Vehicle) → count_if f (keep g a) ≡ count_if (λ v. g v && f v) a
count-keep f g [] = refl
count-keep f g (v ∷ a) = elim (Bool-cases (g v)) [
  | inl e ↦ elim (Bool-cases (f v)) [
    | inl h ↦ rw (e, h) (omega (arith, count-keep f g a))
    | inr h ↦ rw (e, h) (count-keep f g a)
  ]
  | inr e ↦ rw e (count-keep f g a)
]

count_mono :
    (f g : Vehicle → Bool) (a : List Vehicle)
    → ((v : Vehicle) → f v ≡ true → g v ≡ true)
    → count_if f a ≤ count_if g a
count_mono f g [] h = omega arith
count_mono f g (v ∷ a) h = elim (Bool-cases (f v)) [
  | inl e ↦ rw (e, h v e) (omega (arith, count_mono f g a h))
  | inr e ↦ elim (Bool-cases (g v)) [
    | inl k ↦ rw (e, k) (omega (arith, count_mono f g a h))
    | inr k ↦ rw (e, k) (count_mono f g a h)
  ]
]

both_true : (x y z : Bool) → (x ≡ true → y ≡ true) → (x && z) ≡ true → (y && z) ≡ true
both_true true y true h e = rw (h refl) refl
both_true true y false h e = cc
both_true false y z h e = cc

pub keep-Within :
    (g g' : Vehicle → Bool) (a b : List Vehicle)
    → ((v : Vehicle) → g v ≡ true → g' v ≡ true)
    → Within a b
    → Within (keep g a) (keep g' b)
keep-Within g g' a b h w f =
    rw (count-keep f g a, count-keep f g' b)
      (omega (
        arith,
        w (λ v. g v && f v),
        count_mono (λ v. g v && f v) (λ v. g' v && f v) b (λ v. both_true (g v) (g' v) (f v) (h v)),
      ))

keep_less : (g : Vehicle → Bool) (a b : List Vehicle) → Within a b → Within (keep g a) b
keep_less g a b w f =
    rw (count-keep f g a)
      (omega (arith, w f, count_mono (λ v. g v && f v) f a (λ v. second (g v) (f v))))
  where
    second : (x y : Bool) → (x && y) ≡ true → y ≡ true
    second true y e = e
    second false y e = cc

pub narrow-Within :
    (o : Order) (less more : List Lock) (a b : List Vehicle)
    → Fewer less more
    → Within a b
    → Within (narrow o more a) (narrow o less b)
unfolding narrow
narrow-Within o less more a b none_left w = w
narrow-Within o less more a b (left_out k _ ks h) w =
    elim (Bool-cases (same_text k.order_id (some o.id))) [
      | inl e ↦ rw e (
          narrow-Within o less ks (keep (allows k k.kind) a) b h
            (keep_less (allows k k.kind) a b w))
      | inr e ↦ rw e (narrow-Within o less ks a b h w)
    ]
narrow-Within o less more a b (kept_in k js ks h) w =
    elim (Bool-cases (same_text k.order_id (some o.id))) [
      | inl e ↦ rw e (
          narrow-Within o js ks (keep (allows k k.kind) a) (keep (allows k k.kind) b) h
            (keep-Within (allows k k.kind) (allows k k.kind) a b (λ v e. e) w))
      | inr e ↦ rw e (narrow-Within o js ks a b h w)
    ]

-- What holds for one of fewer locks holds for one of more.
pub any_more :
    (f : Lock → Bool) (less more : List Lock)
    → Fewer less more
    → any f less ≡ true
    → any f more ≡ true
any_more f less more none_left e = e
any_more f less more (left_out k _ ks h) e = elim (Bool-cases (f k)) [
  | inl here ↦ rw here refl
  | inr n ↦ rw n (any_more f less ks h e)
]
any_more f less more (kept_in k js ks h) e = elim (Bool-cases (f k)) [
  | inl here ↦ rw here refl
  | inr n ↦ rw n (any_more f js ks h (rw n at e))
]

pub free_with_fewer :
    (less more : List Lock) (v : Vehicle)
    → Fewer less more
    → not (is_forbidden more v) ≡ true
    → not (is_forbidden less v) ≡ true
unfolding is_forbidden
free_with_fewer less more v h e = elim (Bool-cases (is_forbidden less v)) [
  | inl n ↦ absurd (contra (is_forbidden more v) (any_more _ less more h n) e)
  | inr n ↦ rw n refl
]
  where
    contra : (b : Bool) → b ≡ true → not b ≡ true → ⊥
    contra true e n = cc
    contra false e n = cc

is_yes : Result Bool → Bool
is_yes (ok true) = true
is_yes _ = false

abbrev or_later : (Vehicle → Result Bool) → List Vehicle → Bool → Result Bool
or_later f a b = elim b [ true ↦ ok true | false ↦ any_result f a ]

any_result-yes :
    (f : Vehicle → Result Bool) (a : List Vehicle)
    → any_result f a ≡ ok true
    → 1 ≤ count_if (λ v. is_yes (f v)) a
unfolding is_yes
any_result-yes f [] h = cc
any_result-yes f (v ∷ a) h =
    let (b, e, h₁) = >>=-eq-ok (f v) (or_later f a) h in
    elim (Bool-cases b) [
      | inl yes_here ↦ rw (e, yes_here) (omega arith)
      | inr no_here ↦
          let later = any_result-yes f a (subst (λ c. or_later f a c ≡ ok true) no_here h₁) in
          rw (e, no_here) later
    ]

any_result-no :
    (f : Vehicle → Result Bool) (a : List Vehicle)
    → any_result f a ≡ ok false
    → count_if (λ v. is_yes (f v)) a ≡ 0
unfolding is_yes
any_result-no f [] h = refl
any_result-no f (v ∷ a) h =
    let (b, e, h₁) = >>=-eq-ok (f v) (or_later f a) h in
    elim (Bool-cases b) [
      | inl yes_here ↦ absurd (not_no (subst (λ c. or_later f a c ≡ ok false) yes_here h₁))
      | inr no_here ↦
          let later = any_result-no f a (subst (λ c. or_later f a c ≡ ok false) no_here h₁) in
          rw (e, no_here) later
    ]
  where
    not_no : ok true ≡ ok false → ⊥
    not_no e = cc

pub not_lost :
    (f : Vehicle → Result Bool) (a b : List Vehicle)
    → Within a b
    → any_result f a ≡ ok true
    → any_result f b ≡ ok false
    → ⊥
not_lost f a b w yes_a no_b =
    omega (arith, w (λ v. is_yes (f v)), any_result-yes f a yes_a, any_result-no f b no_b)
