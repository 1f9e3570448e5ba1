-- ===== src/Battery/Charge.antt =====
-- The charging loop of vrp/battery.py.
use osrm_microservice.Prelude.{
  ℕ, zero, suc, ◌+◌, ◌-◌, ◌*◌, min, ◌<◌, ◌≤◌, ◌≡◌, refl, ap, arith, Bool-cases, inl, inr, some,
  none, ℤ, pos, negsuc, ◌<ℤ◌, ◌≤ℤ◌, ltb_ℤ, ltb→<ℤ, <ℤ→ltb, ltb-false→≤ℤ, ≤ℤ→ltb-false, <ℤ→leb-false,
  min_ℤ_le, pos_part, true, min_ℤ, max_ℤ, int_laws, ok, err, out_of_fuel, ceil_div, ceil_div_enough,
  ceil_div_ℤ-pos, *ℤ-pos, +ℤ-pos, -ℤ-pos,
}
use osrm_microservice.Battery.{
  ChargingCurve, IsCurve, full_ppt, seconds_per_hour, power_at, next_ceiling, slice_seconds,
  charge_loop, charge_seconds,
}
use osrm_microservice.Battery.Curve.{
  power_at-pos, next_ceiling-gt, next_ceiling-le, best_power, power_at-le-best,
}

-- One slice upwards takes a number of seconds that at the power in force covers its energy.
slice_covers :
    (b power s u : ℕ)
    → 0 < power
    → s ≤ u
    → (y : ℕ) × (slice_seconds b power (pos s) (pos u) ≡ pos y)
      × (b * (u - s) * seconds_per_hour ≤ y * power * full_ppt)
unfolding slice_seconds
slice_covers b power s u h le =
    let w = ceil_div (b * (u - s)) full_ppt in
    (
      ceil_div (w * seconds_per_hour) power,
      rw
          (
            -ℤ-pos u s le,
            *ℤ-pos b (u - s),
            ceil_div_ℤ-pos (b * (u - s)) full_ppt (omega arith),
            *ℤ-pos w seconds_per_hour,
          )
          (ceil_div_ℤ-pos (w * seconds_per_hour) power h),
      omega (
        arith,
        ceil_div_enough (b * (u - s)) full_ppt (omega arith),
        ceil_div_enough (w * seconds_per_hour) power h,
      ),
    )

-- A round ends strictly higher, and not above the target.
min_target :
    (s t : ℕ) (n : ℤ) → pos s <ℤ n → s < t → (u : ℕ) × (min_ℤ (pos t) n ≡ pos u) × (s < u) × (u ≤ t)
unfolding min_ℤ
min_target s t (pos n) h lt = (min t n, ground arith, omega arith, omega arith)
min_target s t (negsuc n) h lt = absurd (omega arith)

mul_le : (y p q : ℕ) → p ≤ q → y * p ≤ y * q
mul_le y p q h = grind arith

-- Two slices, one after the other, each paid at no more than the highest power.
join_cover :
    (b s u t y x p q : ℕ)
    → s ≤ u
    → u ≤ t
    → p ≤ q
    → b * (u - s) * seconds_per_hour ≤ y * p * full_ppt
    → b * (t - u) * seconds_per_hour ≤ x * q * full_ppt
    → b * (t - s) * seconds_per_hour ≤ (y + x) * q * full_ppt
join_cover b s u t y x p q su ut pq first later =
    let e : t - s ≡ (u - s) + (t - u) = omega arith in rw e (omega (arith, mul_le y p q pq))

nothing_left : (b s t r : ℕ) → t ≤ s → b * (t - s) * seconds_per_hour ≤ r
nothing_left b s t r h = let e : t - s ≡ 0 = omega arith in rw e (omega arith)

charge_round :
    (fuel b : ℕ) (c : ChargingCurve) (t s acc u y x : ℕ)
    → ltb_ℤ (pos s) (pos t) ≡ true
    → min_ℤ (pos t) (next_ceiling c (pos s)) ≡ pos u
    → slice_seconds b (power_at c (pos s)) (pos s) (pos u) ≡ pos y
    → charge_loop fuel b c (pos t) (pos u) (pos (acc + y)) ≡ some (pos (acc + y + x))
    → charge_loop (suc fuel) b c (pos t) (pos s) (pos acc) ≡ some (pos (acc + (y + x)))
unfolding charge_loop
charge_round fuel b c t s acc u y x more target slice later =
    let e : acc + (y + x) ≡ acc + y + x = omega arith in
    rw (more, target, slice, +ℤ-pos acc y, e) later

-- With rounds enough for a charge that rises by at least one in each, the loop returns, and the
-- seconds that it adds cover the energy at the highest power.
charge_loop_covers :
    (fuel b : ℕ) (c : ChargingCurve) (t s acc : ℕ)
    → IsCurve c
    → t ≤ full_ppt
    → t - s < fuel
    → (x : ℕ) × (charge_loop fuel b c (pos t) (pos s) (pos acc) ≡ some (pos (acc + x)))
      × (b * (t - s) * seconds_per_hour ≤ x * best_power c * full_ppt)
unfolding charge_loop
charge_loop_covers zero b c t s acc v le h = absurd (omega arith)
charge_loop_covers (suc fuel) b c t s acc v le h = elim (Bool-cases (ltb_ℤ (pos s) (pos t))) [
  | inl more ↦
      let lt = ltb→<ℤ (pos s) (pos t) more in
      let (u, target, up, fits) =
        min_target s t (next_ceiling c (pos s)) (next_ceiling-gt c (pos s) v (omega arith))
          (omega arith) in
      let (y, slice, covers) =
        slice_covers b (power_at c (pos s)) s u (power_at-pos c (pos s) v) (omega arith) in
      let (x, same, later) = charge_loop_covers fuel b c t u (acc + y) v le (omega arith) in
      (
        y + x,
        charge_round fuel b c t s acc u y x more target slice same,
        join_cover b s u t y x _ _ (omega arith) fits (power_at-le-best c (pos s)) covers later,
      )
  | inr done ↦ (
    0,
    rw done (ap (λ (k : ℕ). some (pos k)) (omega arith)),
    nothing_left b s t _ (omega (arith, ltb-false→≤ℤ (pos s) (pos t) done)),
  )
]

max_zero : (a : ℤ) → max_ℤ a (pos 0) ≡ pos (pos_part a)
unfolding max_ℤ
max_zero (pos n) = ground arith
max_zero (negsuc n) = ground arith

-- For a curve that was constructed, a battery with some capacity and a target between the charge on
-- arrival and a full battery: given a number of rounds above the target, `charge_seconds` returns a
-- number of seconds in which, at the highest power of the curve, at least the energy from the charge
-- on arrival (from an empty battery if that is negative) up to the target could be taken on.
pub charge_seconds-covers :
    (fuel b t : ℕ) (c : ChargingCurve) (from : ℤ)
    → IsCurve c
    → 0 < b
    → from ≤ℤ pos t
    → t ≤ full_ppt
    → t < fuel
    → (x : ℕ) × (charge_seconds fuel (pos b) c from (pos t) ≡ ok (pos x))
      × (b * (t - pos_part from) * seconds_per_hour ≤ x * best_power c * full_ppt)
unfolding charge_seconds
charge_seconds-covers fuel b t c from v hb le full h =
    let (x, same, covers) = charge_loop_covers fuel b c t (pos_part from) 0 v full (omega arith) in
    (
      x,
      rw
          (
            ≤ℤ→ltb-false from (pos t) le,
            <ℤ→leb-false (pos b) (pos 0) (omega arith),
            max_zero from,
            same,
          )
          (ap (λ (k : ℕ). ok (pos k)) (omega arith)),
      covers,
    )

charge_loop_stuck :
    (fuel b : ℕ) (c : ChargingCurve) (to_ppt soc acc : ℤ)
    → IsCurve c
    → pos full_ppt <ℤ to_ppt
    → soc <ℤ to_ppt
    → charge_loop fuel b c to_ppt soc acc ≡ none
unfolding charge_loop
charge_loop_stuck zero b c to_ppt soc acc v above h = refl
charge_loop_stuck (suc fuel) b c to_ppt soc acc v above h = rw (<ℤ→ltb soc to_ppt h) (
    charge_loop_stuck fuel b c to_ppt _ _ v above
      (omega (int_laws, min_ℤ_le to_ppt (next_ceiling c soc), next_ceiling-le c soc v)))

raised_below : (a b : ℤ) → a <ℤ b → pos 0 <ℤ b → pos (pos_part a) <ℤ b
raised_below a b h p = ground arith

-- For a curve that was constructed, a battery whose capacity is above zero, and a target above a full
-- battery and above the charge on arrival: the loop does not end, whatever the number of rounds.
pub charge_seconds_diverges :
    (fuel b : ℕ) (c : ChargingCurve) (from to_ppt : ℤ)
    → IsCurve c
    → 0 < b
    → pos full_ppt <ℤ to_ppt
    → from <ℤ to_ppt
    → charge_seconds fuel (pos b) c from to_ppt ≡ err out_of_fuel
unfolding charge_seconds
charge_seconds_diverges fuel b c from to_ppt v hb above h = rw (
  ≤ℤ→ltb-false from to_ppt (omega arith),
  <ℤ→leb-false (pos b) (pos 0) (omega arith),
  max_zero from,
  charge_loop_stuck fuel b c to_ppt (pos (pos_part from)) (pos 0) v above
      (raised_below from to_ppt h (omega arith)),
)
