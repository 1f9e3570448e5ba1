-- ===== src/Battery/Curve.antt =====
-- The bands of a charging curve (vrp/battery.py), their powers and their ceilings.
use osrm_microservice.Prelude.{
  ℕ, max, ◌≤◌, ◌-ℤ◌, leb_ℤ, ◌<◌, ◌≡◌, subst, sym, arith, Bool, true, false, Bool-cases, inl, inr,
  List, [], ◌∷◌, map, any, All, ℤ, pos, ◌<ℤ◌, ◌≤ℤ◌, ltb_ℤ, ltb→<ℤ, int_laws, ok,
}
use osrm_microservice.Battery.{
  Band, to_band, ChargingCurve, charging_curve, ascends_to_full, Ascends, IsCurve, curve, full_ppt,
  power_in, power_at, ceiling_in, next_ceiling,
}

power_in-pos :
    (bs : List Band) (last : ℕ) (soc : ℤ)
    → 0 < last
    → All (λ x. 0 < x.power) bs
    → 0 < power_in bs last soc
unfolding power_in
power_in-pos [] last soc h v = h
power_in-pos (b ∷ bs) last soc h v = ground (arith, power_in-pos bs b.power soc)

pub power_at-pos : (c : ChargingCurve) (soc : ℤ) → IsCurve c → 0 < power_at c soc
unfolding power_at
power_at-pos c soc (curve b bs _ e up v) =
    subst (λ l. 0 < power_in l 0 soc) (sym e) (ground (arith, power_in-pos bs b.power soc))

-- A ceiling lies above the charge until the battery is full.
ceiling_in-gt :
    (low : ℤ) (bs : List Band) (soc : ℤ)
    → Ascends low bs
    → soc <ℤ pos full_ppt
    → soc <ℤ ceiling_in bs soc
unfolding ceiling_in
ceiling_in-gt low [] soc up h = h
ceiling_in-gt low (b ∷ bs) soc up h = elim (Bool-cases (ltb_ℤ soc b.ceiling)) [
  | inl under ↦ rw under (ltb→<ℤ soc b.ceiling under)
  | inr over ↦ rw over (ceiling_in-gt b.ceiling bs soc up.1 h)
]

-- No ceiling lies above a full battery.
ascends-le : (low : ℤ) (bs : List Band) → Ascends low bs → low ≤ℤ pos full_ppt
ascends-le low [] up = ground arith
ascends-le low (b ∷ bs) up = omega (int_laws, ascends-le b.ceiling bs up.1)

ceiling_in-le :
    (low : ℤ) (bs : List Band) (soc : ℤ) → Ascends low bs → ceiling_in bs soc ≤ℤ pos full_ppt
unfolding ceiling_in
ceiling_in-le low [] soc up = omega arith
ceiling_in-le low (b ∷ bs) soc up = elim (Bool-cases (ltb_ℤ soc b.ceiling)) [
  | inl under ↦ rw under (ascends-le b.ceiling bs up.1)
  | inr over ↦ rw over (ceiling_in-le b.ceiling bs soc up.1)
]

-- The whole list ascends from just under its first ceiling.
from_below :
    (b : Band) (bs : List Band) → Ascends b.ceiling bs → Ascends (b.ceiling -ℤ pos 1) (b ∷ bs)
from_below b bs up = (omega int_laws, up)

pub next_ceiling-gt :
    (c : ChargingCurve) (soc : ℤ) → IsCurve c → soc <ℤ pos full_ppt → soc <ℤ next_ceiling c soc
unfolding next_ceiling
next_ceiling-gt c soc (curve b bs _ e up v) h =
    subst (λ l. soc <ℤ ceiling_in l soc) (sym e)
      (ceiling_in-gt _ (b ∷ bs) soc (from_below b bs up) h)

pub next_ceiling-le : (c : ChargingCurve) (soc : ℤ) → IsCurve c → next_ceiling c soc ≤ℤ pos full_ppt
unfolding next_ceiling
next_ceiling-le c soc (curve b bs _ e up v) =
    subst (λ l. ceiling_in l soc ≤ℤ pos full_ppt) (sym e)
      (ceiling_in-le _ (b ∷ bs) soc (from_below b bs up))

most : ℕ → List Band → ℕ
most k [] = k
most k (b ∷ bs) = most (max k b.power) bs

-- The highest power that the curve has anywhere.
pub best_power : ChargingCurve → ℕ
unfolding most
best_power c = most 0 c.bands

most-ge : (k : ℕ) (bs : List Band) → k ≤ most k bs
unfolding most
most-ge k [] = omega arith
most-ge k (b ∷ bs) = omega (arith, most-ge (max k b.power) bs)

power_in-le-most :
    (k : ℕ) (bs : List Band) (last : ℕ) (soc : ℤ) → last ≤ k → power_in bs last soc ≤ most k bs
unfolding power_in most
power_in-le-most k [] last soc h = h
power_in-le-most k (b ∷ bs) last soc h =
    ground (arith, most-ge (max k b.power) bs, power_in-le-most (max k b.power) bs b.power soc)

pub power_at-le-best : (c : ChargingCurve) (soc : ℤ) → power_at c soc ≤ best_power c
unfolding power_at best_power
power_at-le-best c soc = power_in-le-most 0 c.bands 0 soc (omega arith)

ascends_lem :
    (low : ℤ) (raw : List (ℤ × ℤ)) → ascends_to_full low raw ≡ true → Ascends low (map to_band raw)
unfolding ascends_to_full
ascends_lem low [] h = ground arith
ascends_lem low ((ceiling, power) ∷ rest) h =
    (ground arith, ascends_lem ceiling rest (ground arith))

abbrev any_flat : List (ℤ × ℤ) → Bool
any_flat = any (λ b. leb_ℤ b.1 (pos 0))

abbrev AllPower : List Band → Type 0
AllPower = All (λ x. 0 < x.power)

powers_lem : (raw : List (ℤ × ℤ)) → any_flat raw ≡ false → AllPower (map to_band raw)
powers_lem [] h = tt
powers_lem ((ceiling, power) ∷ rest) h = (ground arith, powers_lem rest (ground arith))

-- A curve that the constructor returns ascends strictly to a full battery and has positive power in
-- every band.
pub charging_curve-IsCurve :
    (raw : List (ℤ × ℤ)) {c : ChargingCurve} → charging_curve raw ≡ ok c → IsCurve c
unfolding charging_curve
charging_curve-IsCurve [] h = cc
charging_curve-IsCurve ((ceiling, power) ∷ rest) {c} h =
    curve (to_band (ceiling, power)) (map to_band rest) c (ground arith)
      (ascends_lem ceiling rest (ground arith))
      (powers_lem ((ceiling, power) ∷ rest) (ground arith))
