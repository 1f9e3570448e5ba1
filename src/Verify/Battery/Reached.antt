-- ===== src/Verify/Battery/Reached.antt =====
-- `_charged_to` of vrp/verify/verifier.py against the charging times of vrp/battery.py.
use osrm_microservice.Prelude.{
  arith, ℕ, zero, suc, ◌≡◌, refl, subst, ◌⊎◌, inl, inr, true, Bool-cases, if◌then◌else◌, ℤ, pos,
  ◌+ℤ◌, ◌-ℤ◌, ◌≤ℤ◌, ◌<ℤ◌, ltb_ℤ, ltb→<ℤ, ltb-false→≤ℤ, int_laws, eq_of_parts, gap, Result, ok,
  ok-injective, >>=-eq-ok,
}
use osrm_microservice.Battery.{ChargingCurve, full_ppt, charge_seconds}
use osrm_microservice.Model.Plan.{Step}
use osrm_microservice.Evaluator.Timeline.{charge_rounds}
use osrm_microservice.Verify.Battery.{charge_up, charged_to}

module _ (wh : ℤ) (curve : ChargingCurve) (arrived plugged : ℤ) where
  -- The seconds of a charge from the charge on arrival up to the given one.
  abbrev pub seconds_to : ℤ → Result ℤ
  seconds_to soc = charge_seconds (charge_rounds soc) wh curve arrived soc

  -- Nothing was charged, or the time at the plug was enough for it.
  abbrev pub IsPaid : ℤ → Type 0
  IsPaid r = (r ≡ arrived) ⊎ ((seconds : ℤ) × (seconds_to r ≡ ok seconds) × (seconds ≤ℤ plugged))

  -- The battery is full, or the time was too short for one part per thousand more.
  abbrev pub IsMost : ℤ → Type 0
  IsMost r =
      (r ≡ pos full_ppt)
      ⊎ ((seconds : ℤ) × (seconds_to (r +ℤ pos 1) ≡ ok seconds) × (plugged <ℤ seconds))

  abbrev Reaches : ℤ → ℤ → Type 0
  Reaches from r = (from ≤ℤ r) × (r ≤ℤ pos full_ppt) × IsPaid r × IsMost r

  abbrev next_round : ℕ → ℤ → ℤ → Result ℤ
  next_round fuel reached seconds =
      if ltb_ℤ plugged seconds
      then ok reached
      else charge_up fuel wh curve arrived plugged (reached +ℤ pos 1)

  charge_up-Reaches :
      (fuel : ℕ) (reached r : ℤ)
      → gap reached (pos full_ppt) ≡ fuel
      → reached ≤ℤ pos full_ppt
      → IsPaid reached
      → charge_up fuel wh curve arrived plugged reached ≡ ok r
      → Reaches reached r
  unfolding charge_up
  charge_up-Reaches zero reached r enough low paid h =
      subst (Reaches reached) (ok-injective h)
        (omega arith, low, paid, inl (eq_of_parts reached (pos full_ppt) (omega arith)))
  charge_up-Reaches (suc fuel) reached r enough low paid h =
      let below : ltb_ℤ reached (pos full_ppt) ≡ true = ground arith in
      let (seconds, e, h₁) =
        >>=-eq-ok (seconds_to (reached +ℤ pos 1)) (next_round fuel reached) (rw below at h) in
      elim (Bool-cases (ltb_ℤ plugged seconds)) [
        | inl short ↦
            subst (Reaches reached) (ok-injective (rw short at h₁))
              (omega arith, low, paid, inr (seconds, e, ltb→<ℤ plugged seconds short))
        | inr enough_time ↦
            let (up, full, is_paid, is_most) =
              charge_up-Reaches fuel (reached +ℤ pos 1) r (omega int_laws) (omega int_laws)
                (inr (seconds, e, ltb-false→≤ℤ plugged seconds enough_time))
                (rw enough_time at h₁) in
            (omega int_laws, full, is_paid, is_most)
      ]

-- For a charge on arrival that is no more than full: what the verifier credits a charging step with is
-- at least the charge on arrival and at most a full battery; it was either not raised or its charging
-- time fits into the time at the plug; and it is either full or one part per thousand more would have
-- taken longer than that time.
pub charged_to-IsMost :
    (wh : ℤ) (curve : ChargingCurve) (arrived r : ℤ) (step : Step)
    → arrived ≤ℤ pos full_ppt
    → charged_to wh curve arrived step ≡ ok r
    → (arrived ≤ℤ r)
      × (r ≤ℤ pos full_ppt)
      × IsPaid wh curve arrived (step.departure -ℤ step.start_service) r
      × IsMost wh curve arrived (step.departure -ℤ step.start_service) r
unfolding charged_to
charged_to-IsMost wh curve arrived r step low h =
    charge_up-Reaches wh curve arrived (step.departure -ℤ step.start_service)
      (gap arrived (pos full_ppt)) arrived r refl low (inl refl) h
