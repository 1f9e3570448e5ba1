-- ===== src/Battery/Consumption.antt =====
-- What driving costs the battery: `consumed_ppt` of vrp/battery.py.
use native.Mathlib.Nat.{le_trans}
use osrm_microservice.Prelude.{
  ℕ, ◌+◌, ◌*◌, ◌<◌, ◌≤◌, ◌≡◌, ap, arith, ceil_div_least, ceil_div_lt, pos, <ℤ→leb-false, *ℤ-pos,
  ceil_div, ceil_div_ℤ-pos, ceil_div_enough, ceil_div_mono, ok,
}
use osrm_microservice.Battery.{consumed_ppt, full_ppt, metres_per_km}

abbrev charge_used : ℕ → ℕ → ℕ → ℕ
charge_used b w m = ceil_div (ceil_div (w * m) metres_per_km * full_ppt) b

consumed_ppt_lem :
    (b w m : ℕ)
    → 0 < b
    → 0 < m
    → consumed_ppt (pos b) (pos w) (pos m) ≡ ok (pos (charge_used b w m))
unfolding consumed_ppt
consumed_ppt_lem b w m hb hm = rw (
  <ℤ→leb-false (pos b) (pos 0) (omega arith),
  <ℤ→leb-false (pos m) (pos 0) (omega arith),
  *ℤ-pos w m,
  ceil_div_ℤ-pos (w * m) metres_per_km (omega arith),
  *ℤ-pos (ceil_div (w * m) metres_per_km) full_ppt,
  ceil_div_ℤ-pos (ceil_div (w * m) metres_per_km * full_ppt) b hb,
)

-- For a battery with some capacity, a consumption that is not negative and a positive distance: the
-- drop is returned, its share of the capacity is at least the energy used (both in thousandths of a
-- watt-hour), and exceeds it by less than one watt-hour and one part per thousand of the battery.
pub consumed_ppt_bounds :
    (b w m : ℕ)
    → 0 < b
    → 0 < m
    → (c : ℕ) × (consumed_ppt (pos b) (pos w) (pos m) ≡ ok (pos c))
      × (w * m ≤ c * b)
      × (c * b < w * m + metres_per_km + b)
consumed_ppt_bounds b w m hb hm =
    let used = ceil_div (w * m) metres_per_km in
    (
      charge_used b w m,
      consumed_ppt_lem b w m hb hm,
      omega (
        arith,
        ceil_div_enough (w * m) metres_per_km (omega arith),
        ceil_div_enough (used * full_ppt) b hb,
      ),
      omega (
        arith,
        ceil_div_lt (w * m) metres_per_km (omega arith),
        ceil_div_lt (used * full_ppt) b hb,
      ),
    )

ceil_div_add : (a b k : ℕ) → 0 < k → ceil_div (a + b) k ≤ ceil_div a k + ceil_div b k
ceil_div_add a b k h =
    ceil_div_least (a + b) k _ h (omega (arith, ceil_div_enough a k h, ceil_div_enough b k h))

charge_used_split :
    (b w m n : ℕ) → 0 < b → charge_used b w (m + n) ≤ charge_used b w m + charge_used b w n
charge_used_split b w m n h =
    let used = λ (k : ℕ). ceil_div (w * k) metres_per_km in
    let e : w * (m + n) ≡ w * m + w * n = omega arith in
    le_trans
      (ceil_div_mono (used (m + n) * full_ppt) (used m * full_ppt + used n * full_ppt) b h (
        omega (
          arith,
          ceil_div_add (w * m) (w * n) metres_per_km (omega arith),
          ap (λ (t : ℕ). ceil_div t metres_per_km) e,
        )))
      (ceil_div_add (used m * full_ppt) (used n * full_ppt) b h)

charge_used_mono : (b w m n : ℕ) → 0 < b → m ≤ n → charge_used b w m ≤ charge_used b w n
charge_used_mono b w m n h le =
    ceil_div_mono _ _ b h
      (omega (arith, ceil_div_mono (w * m) (w * n) metres_per_km (omega arith) (grind arith)))

-- For a battery with some capacity and a consumption that is not negative: a leg that is driven in
-- two parts costs at least the charge of the whole leg, and the whole leg at least that of a part.
pub consumed_ppt_split :
    (b w m n : ℕ)
    → 0 < b
    → 0 < m
    → 0 < n
    → (whole first second : ℕ) × (consumed_ppt (pos b) (pos w) (pos (m + n)) ≡ ok (pos whole))
      × (consumed_ppt (pos b) (pos w) (pos m) ≡ ok (pos first))
      × (consumed_ppt (pos b) (pos w) (pos n) ≡ ok (pos second))
      × (whole ≤ first + second)
      × (first ≤ whole)
consumed_ppt_split b w m n hb hm hn = (
  charge_used b w (m + n),
  charge_used b w m,
  charge_used b w n,
  consumed_ppt_lem b w (m + n) hb (omega arith),
  consumed_ppt_lem b w m hb hm,
  consumed_ppt_lem b w n hb hn,
  charge_used_split b w m n hb,
  charge_used_mono b w m (m + n) hb (omega arith),
)
