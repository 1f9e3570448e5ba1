-- ===== src/Examples/Charging.antt =====
-- A battery of 50 kWh on a charger that gives 50 kW up to 800 parts per thousand and 20 kW above.
use osrm_microservice.Prelude.{
  ℕ, ◌+◌, ◌-◌, ◌*◌, ◌≤◌, ◌<◌, ◌≡◌, refl, arith, ◌∷◌, List, [], ℤ, pos, pos_part, max_ℤ, min_ℤ, ◌+ℤ◌,
  ceil_div_ℤ, ◌-ℤ◌, div_ℤ, ◌*ℤ◌, ok, err, out_of_fuel,
}
use osrm_microservice.Battery.{
  ChargingCurve, IsCurve, charging_curve, consumed_ppt, charge_seconds, next_ceiling, slice_seconds,
  power_at, full_ppt, seconds_per_hour, metres_per_km,
}
use osrm_microservice.Battery.Curve.{charging_curve-IsCurve, best_power}
use osrm_microservice.Battery.Consumption.{consumed_ppt_bounds, consumed_ppt_split}
use osrm_microservice.Battery.Charge.{charge_seconds-covers, charge_seconds_diverges}

abbrev bands : List (ℤ × ℤ)
bands = (pos 800, pos 50000) ∷ (pos 1000, pos 20000) ∷ []

abbrev pub tapering : ChargingCurve
tapering = record {
  bands =
      record { ceiling = pos 800; power = 50000 }
      ∷ record { ceiling = pos 1000; power = 20000 }
      ∷ [];
}

tapering_built : charging_curve bands ≡ ok tapering
unfolding charging_curve
tapering_built = refl

charging_curve-IsCurve_example : IsCurve tapering
charging_curve-IsCurve_example = charging_curve-IsCurve bands {c = tapering} tapering_built

-- The last tenth below 900 is charged at 20 kW.
charge_seconds_taper : charge_seconds 1000 (pos 50000) tapering (pos 200) (pos 900) ≡ ok (pos 3060)
unfolding charge_seconds max_ℤ min_ℤ next_ceiling ◌+ℤ◌ slice_seconds ceil_div_ℤ ◌-ℤ◌ div_ℤ ◌*ℤ◌
    power_at
charge_seconds_taper = refl

charge_seconds-covers_example :
    (x : ℕ) × (charge_seconds 901 (pos 50000) tapering (pos 200) (pos 900) ≡ ok (pos x))
    × (50000 * (900 - pos_part (pos 200)) * seconds_per_hour ≤ x * best_power tapering * full_ppt)
charge_seconds-covers_example =
    charge_seconds-covers 901 50000 900 tapering (pos 200)
      (charging_curve-IsCurve bands {c = tapering} tapering_built) (omega arith) (omega arith)
      (omega arith) (omega arith)

charge_seconds_diverges_example :
    charge_seconds 5000 (pos 50000) tapering (pos 200) (pos 1100) ≡ err out_of_fuel
charge_seconds_diverges_example =
    charge_seconds_diverges 5000 50000 tapering (pos 200) (pos 1100)
      (charging_curve-IsCurve bands {c = tapering} tapering_built) (omega arith) (omega arith)
      (omega arith)

consumed_ppt_bounds_example :
    (c : ℕ) × (consumed_ppt (pos 50000) (pos 200) (pos 12345) ≡ ok (pos c))
    × (200 * 12345 ≤ c * 50000)
    × (c * 50000 < 200 * 12345 + metres_per_km + 50000)
consumed_ppt_bounds_example = consumed_ppt_bounds 50000 200 12345 (omega arith) (omega arith)

consumed_ppt_split_example :
    (whole first second : ℕ) × (consumed_ppt (pos 50000) (pos 200) (pos (12345 + 678))
      ≡ ok (pos whole))
    × (consumed_ppt (pos 50000) (pos 200) (pos 12345) ≡ ok (pos first))
    × (consumed_ppt (pos 50000) (pos 200) (pos 678) ≡ ok (pos second))
    × (whole ≤ first + second)
    × (first ≤ whole)
consumed_ppt_split_example =
    consumed_ppt_split 50000 200 12345 678 (omega arith) (omega arith) (omega arith)
