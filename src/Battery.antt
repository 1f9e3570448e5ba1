-- ===== src/Battery.antt =====
-- vrp/battery.py: charging curves, the charge that a distance costs, and the walk over the bands
-- that says how long a charge takes. The proofs are in the modules below.
pub mod Curve
pub mod Consumption
pub mod Charge
use osrm_microservice.Prelude.{
  ℕ, zero, suc, ◌+◌, ◌*◌, ◌<◌, ◌≡◌, Bool, true, false, Option, none, some, List, [], ◌∷◌, map, leb,
  ◌==◌, if◌then◌else◌, any, ◌||◌, ◌&&◌, not, All, ℤ, pos, negsuc, pos_part, ◌-ℤ◌, ◌+ℤ◌, ◌*ℤ◌, ◌<ℤ◌,
  leb_ℤ, ltb_ℤ, eqb_ℤ, max_ℤ, min_ℤ, div_ℤ, ceil_div_ℤ, gap, Result, ok, err, value_error,
  out_of_fuel, or_raise,
}

abbrev pub full_ppt : ℕ
full_ppt = 1000

abbrev pub seconds_per_hour : ℕ
seconds_per_hour = 3600

abbrev pub metres_per_km : ℕ
metres_per_km = 1000

pub record Band : Type 0 where
  pub ceiling : ℤ
  pub power : ℕ

pub record ChargingCurve : Type 0 where
  pub bands : List Band

abbrev pub to_band : ℤ × ℤ → Band
to_band b = record { ceiling = b.0; power = pos_part b.1 }

-- The ceilings ascend strictly from `low`, and the last one is a full battery.
ascends_to_full : ℤ → List (ℤ × ℤ) → Bool
ascends_to_full low [] = eqb_ℤ low (pos full_ppt)
ascends_to_full low ((ceiling, power) ∷ rest) = ltb_ℤ low ceiling && ascends_to_full ceiling rest

-- `ChargingCurve(bands)` with the checks of `__post_init__`. Sorted with no ceiling twice is
-- strictly ascending.
unfoldable pub charging_curve : List (ℤ × ℤ) → Result ChargingCurve
unfolding ascends_to_full
charging_curve [] = err value_error
charging_curve ((ceiling, power) ∷ rest) =
    if not (ascends_to_full ceiling rest)
    then err value_error
    else if any (λ b. leb_ℤ b.1 (pos 0)) ((ceiling, power) ∷ rest)
    then err value_error
    else ok (record { bands = map to_band ((ceiling, power) ∷ rest) })

-- What those checks leave.
abbrev pub Ascends : ℤ → List Band → Type 0
Ascends low [] = low ≡ pos full_ppt
Ascends low (b ∷ bs) = (low <ℤ b.ceiling) × Ascends b.ceiling bs

pub data IsCurve : ChargingCurve → Type 0 where
  curve :
      (b : Band) (bs : List Band) (c : ChargingCurve)
      → c.bands ≡ b ∷ bs
      → Ascends b.ceiling bs
      → All (λ x. 0 < x.power) (b ∷ bs)
      → IsCurve c

-- The first band that the charge is below; `last` is the power of the last band read.
power_in : List Band → ℕ → ℤ → ℕ
power_in [] last soc = last
power_in (b ∷ bs) last soc = if ltb_ℤ soc b.ceiling then b.power else power_in bs b.power soc

unfoldable pub power_at : ChargingCurve → ℤ → ℕ
unfolding power_in
power_at c soc = power_in c.bands 0 soc

ceiling_in : List Band → ℤ → ℤ
ceiling_in [] soc = pos full_ppt
ceiling_in (b ∷ bs) soc = if ltb_ℤ soc b.ceiling then b.ceiling else ceiling_in bs soc

unfoldable pub next_ceiling : ChargingCurve → ℤ → ℤ
unfolding ceiling_in
next_ceiling c soc = ceiling_in c.bands soc

unfoldable pub energy_wh : ℤ → ℤ → ℤ
energy_wh battery_wh soc = div_ℤ (battery_wh *ℤ soc) full_ppt

unfoldable pub consumed_ppt : ℤ → ℤ → ℤ → Result ℤ
consumed_ppt battery_wh wh_per_km metres =
    if leb_ℤ battery_wh (pos 0)
    then err value_error
    else if leb_ℤ metres (pos 0)
    then ok (pos 0)
    else let used_wh = ceil_div_ℤ (wh_per_km *ℤ metres) metres_per_km in
      ok (ceil_div_ℤ (used_wh *ℤ pos full_ppt) (pos_part battery_wh))

-- The seconds of one slice of a charge, from `soc` up to `ceiling` at `power`.
unfoldable pub slice_seconds : ℕ → ℕ → ℤ → ℤ → ℤ
slice_seconds battery_wh power soc ceiling =
    let slice_wh = ceil_div_ℤ (pos battery_wh *ℤ (ceiling -ℤ soc)) full_ppt in
    ceil_div_ℤ (slice_wh *ℤ pos seconds_per_hour) power

-- The `while soc < to_ppt` loop, one unit of fuel for a round.
charge_loop : ℕ → ℕ → ChargingCurve → ℤ → ℤ → ℤ → Option ℤ
charge_loop zero battery_wh c to_ppt soc seconds = none
charge_loop (suc fuel) battery_wh c to_ppt soc seconds =
    let ceiling = min_ℤ to_ppt (next_ceiling c soc) in
    let more = slice_seconds battery_wh (power_at c soc) soc ceiling in
    let rest = charge_loop fuel battery_wh c to_ppt ceiling (seconds +ℤ more) in
    if ltb_ℤ soc to_ppt then rest else some seconds

-- The checks that stand before the loop, and the loop from `max(from_ppt, 0)`.
unfoldable pub charge_seconds : ℕ → ℤ → ChargingCurve → ℤ → ℤ → Result ℤ
unfolding charge_loop
charge_seconds fuel battery_wh c from_ppt to_ppt =
    if ltb_ℤ to_ppt from_ppt
    then err value_error
    else if leb_ℤ battery_wh (pos 0)
    then err value_error
    else or_raise (charge_loop fuel (pos_part battery_wh) c to_ppt (max_ℤ from_ppt (pos 0)) (pos 0))
        out_of_fuel
