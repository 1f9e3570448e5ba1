-- ===== src/LockConflict/Stages.antt =====
-- What the tests of a diagnosis (vrp/diagnose.py) answered, read from its reason.
use osrm_microservice.Prelude.{
  ◌≡◌, refl, sym, ◌⊎◌, inl, inr, Bool, true, false, not, Option, none, some, if◌then◌else◌, Result,
  ok, err, ok-injective, ◌>>=◌,
}
use osrm_microservice.Model.Stop.{StopSpec}
use osrm_microservice.Diagnose.{
  Reason, time_window_unreachable, duty_limit, incompatible_only, depot_stockout,
  release_after_window, no_eligible_vehicle, capacity_exceeded,
}

-- The three stages of a diagnosis, by what their tests answer.
abbrev pub usable_of : Result Bool → Result Bool → Bool → Result (Option Reason)
usable_of reached rested forced = do
  r ← reached
  elim r [
    | false ↦ ok (some time_window_unreachable)
    | true ↦ do
      d ← rested
      elim d [
        | false ↦ ok (some duty_limit)
        | true ↦ ok (if forced then some incompatible_only else none)
      ]
  ]

pub usable-none :
    (r d : Result Bool) (f : Bool)
    → usable_of r d f ≡ ok none
    → (r ≡ ok true) × (d ≡ ok true) × (f ≡ false)
usable-none (ok true) (ok true) false h = (refl, refl, refl)
usable-none (ok true) (ok true) true h = cc
usable-none (ok true) (ok false) f h = cc
usable-none (ok true) (err e) f h = cc
usable-none (ok false) d f h = cc
usable-none (err e) d f h = cc

pub usable-some :
    (r d : Result Bool) (f : Bool) (c : Reason)
    → usable_of r d f ≡ ok (some c)
    → (r ≡ ok false) ⊎ (d ≡ ok false) ⊎ (f ≡ true)
usable-some (ok false) d f c h = inl refl
usable-some (ok true) (ok false) f c h = inr (inl refl)
usable-some (ok true) (ok true) true c h = inr (inr refl)
usable-some (ok true) (ok true) false c h = cc
usable-some (ok true) (err e) f c h = cc
usable-some (err e) d f c h = cc

abbrev pub stocked_of :
    Result Bool
    → Result StopSpec
    → (StopSpec → Bool)
    → Result (Option Reason)
    → Result (Option Reason)
stocked_of stocked stop late rest = do
  s ← stocked
  elim s [
    | false ↦ ok (some depot_stockout)
    | true ↦ do x ← stop; if late x then ok (some release_after_window) else rest
  ]

late_or_rest :
    (late : Bool) (rest : Result (Option Reason)) (v : Option Reason)
    → (if late then ok (some release_after_window) else rest) ≡ ok v
    → ((late ≡ true) × (v ≡ some release_after_window)) ⊎ ((late ≡ false) × (rest ≡ ok v))
late_or_rest true rest v h = inl (refl, sym (ok-injective h))
late_or_rest false rest v h = inr (refl, h)

pub stocked-cases :
    (r : Result Bool) (s : Result StopSpec) (late : StopSpec → Bool) (rest : Result (Option Reason))
    (v : Option Reason)
    → stocked_of r s late rest ≡ ok v
    → ((r ≡ ok false) × (v ≡ some depot_stockout))
      ⊎ ((r ≡ ok true)
          × ((x : StopSpec) × (s ≡ ok x)
              × (((late x ≡ true) × (v ≡ some release_after_window))
                  ⊎ ((late x ≡ false) × (rest ≡ ok v)))))
stocked-cases (ok false) s late rest v h = inl (refl, sym (ok-injective h))
stocked-cases (ok true) (ok x) late rest v h = inr (refl, (x, refl, late_or_rest (late x) rest v h))
stocked-cases (ok true) (err e) late rest v h = cc
stocked-cases (err e) s late rest v h = cc

abbrev pub fleet_of : Bool → Bool → Result (Option Reason) → Result (Option Reason)
fleet_of empty room rest =
    if empty
    then ok (some no_eligible_vehicle)
    else if not room
    then ok (some capacity_exceeded)
    else rest

pub fleet-none :
    (e f : Bool) (rest : Result (Option Reason))
    → fleet_of e f rest ≡ ok none
    → (e ≡ false) × (f ≡ true) × (rest ≡ ok none)
fleet-none true f rest h = cc
fleet-none false true rest h = (refl, refl, h)
fleet-none false false rest h = cc

pub fleet-some :
    (e f : Bool) (rest : Result (Option Reason)) (c : Reason)
    → fleet_of e f rest ≡ ok (some c)
    → (e ≡ true) ⊎ (f ≡ false) ⊎ (rest ≡ ok (some c))
fleet-some true f rest c h = inl refl
fleet-some false false rest c h = inr (inl refl)
fleet-some false true rest c h = inr (inr h)

pub clash : (b : Bool) → b ≡ true → b ≡ false → ⊥
clash true e n = cc
clash false e n = cc
