-- ===== src/TimeDependent/Seconds.antt =====
-- The walk over buckets of vrp/timedependent.py against a reading second by second.
use native.Mathlib.Nat.{mul_comm, div-lt_iff_lt-mul, mul-pos}
use osrm_microservice.Prelude.{
  ℕ, zero, suc, ◌+◌, ◌-◌, ◌*◌, ◌<◌, ◌≤◌, ◌≡◌, refl, ap, ◌∙◌, arith, Bool-cases, inl, inr, ◌⊎◌,
  ceil_div_enough, ceil_div_below, leb→le, ==-false→ne, leb-false→lt, some, List, [], ◌∷◌, leb,
  ◌==◌, get_or, length, All, ceil_div, ℤ, pos, ◌+ℤ◌, int_laws, ok,
}
use osrm_microservice.TimeDependent.{
  SpeedProfile, IsProfile, ppt, span, bucket_index, multiplier_at, to_boundary, walk, travel,
}
use osrm_microservice.TimeDependent.Clock.{mod_ℤ-lt, bucket_within}

-- What is covered in the `n` seconds from `clock`.
unfoldable pub covered : SpeedProfile → ℤ → ℕ → ℕ
covered p clock zero = 0
covered p clock (suc n) = covered p clock n + multiplier_at p (clock +ℤ pos n)

-- `t` is the first number of seconds in which `distance` is covered.
pub record IsFirst (p : SpeedProfile) (distance : ℕ) (clock : ℤ) (t : ℕ) : Type 0 where
  pub enough : distance ≤ covered p clock t
  pub before : (s : ℕ) → s < t → covered p clock s < distance

get_or-pos : (xs : List ℕ) (i : ℕ) → All (λ m. 0 < m) xs → i < length xs → 0 < get_or xs i 0
get_or-pos [] i h lt = elim lt [ ]
get_or-pos (x ∷ xs) zero h lt = h.0
get_or-pos (x ∷ xs) (suc i) h lt = get_or-pos xs i h.1 (omega arith)

module _ (p : SpeedProfile) (v : IsProfile p) where
  open v use {bucket_pos, some_bucket, all_pos}

  -- The lookup in the tuple of multipliers never leaves it.
  pub bucket_index-lt : (c : ℤ) → bucket_index p c < length p.multipliers_ppt
  unfolding bucket_index
  bucket_index-lt c = (div-lt_iff_lt-mul bucket_pos).1 (
      omega (
        arith,
        mod_ℤ-lt c (span p) (mul-pos bucket_pos some_bucket),
        mul_comm p.bucket_seconds (length p.multipliers_ppt),
      ))

  pub multiplier_at-pos : (c : ℤ) → 0 < multiplier_at p c
  unfolding multiplier_at
  multiplier_at-pos c = get_or-pos p.multipliers_ppt (bucket_index p c) all_pos (bucket_index-lt c)

  pub to_boundary-pos : (c : ℤ) → 0 < to_boundary p c
  unfolding to_boundary
  to_boundary-pos c = omega (arith, mod_ℤ-lt c p.bucket_seconds bucket_pos)

  -- The multiplier does not change before the boundary.
  bucket_index-within :
      (c : ℤ) (i : ℕ) → i < to_boundary p c → bucket_index p (c +ℤ pos i) ≡ bucket_index p c
  unfolding bucket_index to_boundary
  bucket_index-within c i h =
      bucket_within c p.bucket_seconds (length p.multipliers_ppt) i bucket_pos some_bucket
        (omega (arith, mod_ℤ-lt c p.bucket_seconds bucket_pos))

  covered-within : (c : ℤ) (n : ℕ) → n ≤ to_boundary p c → covered p c n ≡ n * multiplier_at p c
  unfolding covered multiplier_at
  covered-within c zero h = omega arith
  covered-within c (suc n) h = ground (arith, covered-within c n, bucket_index-within c n)

shift : (c : ℤ) (a b : ℕ) → c +ℤ pos (a + b) ≡ c +ℤ pos a +ℤ pos b
shift c a b = omega int_laws

pub covered-add :
    (p : SpeedProfile) (c : ℤ) (a b : ℕ)
    → covered p c (a + b) ≡ covered p c a + covered p (c +ℤ pos a) b
unfolding covered
covered-add p c a zero = let e : a + 0 ≡ a = omega arith in rw e (omega arith)
covered-add p c a (suc b) =
    let e : a + suc b ≡ suc (a + b) = omega arith in
    rw e (omega (arith, covered-add p c a b, ap (multiplier_at p) (shift c a b)))

-- Enough rounds: a round covers something, so the walk ends, and at the first second that covers
-- what remained.
module _ (p : SpeedProfile) (v : IsProfile p) where
  here-IsFirst :
      (r : ℕ) (c : ℤ)
      → ceil_div r (multiplier_at p c) ≤ to_boundary p c
      → IsFirst p r c (ceil_div r (multiplier_at p c))
  here-IsFirst r c fits = record {
    enough =
        omega (arith, covered-within p v c _ fits, ceil_div_enough r _ (multiplier_at-pos p v c));
    before = λ s lt. omega (
      arith,
      covered-within p v c s (omega arith),
      ceil_div_below r _ s (multiplier_at-pos p v c) lt,
    );
  }

  later-IsFirst :
      (r : ℕ) (c : ℤ) (t : ℕ)
      → to_boundary p c < ceil_div r (multiplier_at p c)
      → IsFirst p (r - to_boundary p c * multiplier_at p c) (c +ℤ pos (to_boundary p c)) t
      → IsFirst p r c (to_boundary p c + t)
  later-IsFirst r c t more first = record {
    enough = omega (arith, covered-add p c b t, covered-within p v c b (omega arith), first.enough);
    before = λ s lt. elim (le_or_lt s) [
      | inl near ↦ omega (arith, covered-within p v c s near, near_le s near, below)
      | inr far ↦ before_far s far (omega arith)
    ];
  }
    where
      b : ℕ
      b = to_boundary p c

      below : b * multiplier_at p c < r
      below = ceil_div_below r _ b (multiplier_at-pos p v c) more

      near_le : (s : ℕ) → s ≤ b → s * multiplier_at p c ≤ b * multiplier_at p c
      near_le s h = grind arith

      le_or_lt : (s : ℕ) → (s ≤ b) ⊎ (b < s)
      le_or_lt s = omega arith

      before_far : (s : ℕ) → b < s → s < b + t → covered p c s < r
      before_far s far lt =
          let e : s ≡ b + (s - b) = omega arith in
          rw e (
            omega (
              arith,
              covered-add p c b (s - b),
              covered-within p v c b (omega arith),
              first.before (s - b) (omega arith),
              below,
            ))

walk-IsFirst :
    (fuel : ℕ) (p : SpeedProfile) (v : IsProfile p) (r : ℕ) (c : ℤ) (elapsed : ℕ)
    → r < fuel
    → (t : ℕ) × (walk fuel p r c elapsed ≡ some (elapsed + t)) × IsFirst p r c t
unfolding walk
walk-IsFirst zero p v r c e h = absurd (omega arith)
walk-IsFirst (suc fuel) p v r c elapsed h = elim (Bool-cases (r == 0)) [
  | inl z ↦ (
    0,
    rw z (ap some (omega arith)),
    record { enough = ground arith; before = λ s lt. absurd (omega arith) },
  )
  | inr nz ↦ elim (Bool-cases (leb (ceil_div r (multiplier_at p c)) (to_boundary p c))) [
    | inl done ↦
        (ceil_div r (multiplier_at p c), rw (nz, done), here-IsFirst p v r c (leb→le _ _ done))
    | inr more ↦
        let b = to_boundary p c in
        let (t, same, first) =
          walk-IsFirst fuel p v (r - b * multiplier_at p c) (c +ℤ pos b) (elapsed + b) (
            omega (
              arith,
              mul-pos (to_boundary-pos p v c) (multiplier_at-pos p v c),
              ==-false→ne r 0 nz,
            )) in
        (
          b + t,
          rw (nz, more) (same ∙ ap some (omega arith)),
          later-IsFirst p v r c t (leb-false→lt _ _ more) first,
        )
  ]
]

-- For a profile that was constructed and a free-flow duration that is not negative, `travel`
-- returns, and what it returns is the first number of whole seconds in which the vehicle, covering
-- each second what the multiplier in force allows, has covered the arc.
pub travel-IsFirst :
    (p : SpeedProfile) (n : ℕ) (depart : ℤ)
    → IsProfile p
    → (t : ℕ) × (travel (pos n) depart p ≡ ok t) × IsFirst p (n * ppt) depart t
unfolding travel
travel-IsFirst p zero depart v =
    (0, refl, record { enough = omega arith; before = λ s lt. absurd (omega arith) })
travel-IsFirst p (suc n) depart v =
    let (t, same, first) =
      walk-IsFirst (suc (suc n * ppt)) p v (suc n * ppt) depart 0 (omega arith) in
    (t, rw same (ap ok (omega arith)), first)
