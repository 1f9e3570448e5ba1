-- ===== src/TimeDependent/Clock.antt =====
-- The day wraps: remainders of an instant, and how they move with the clock.
use native.Mathlib.Nat.{
  mod-lt, div-add-mod, mul-add-mod_self_left, mul-add-div, mod-eq_of_lt, div-eq_of_lt, mul_assoc,
  mod-le, div-lt_iff_lt-mul, mul_comm, mul-pos,
}
use osrm_microservice.Prelude.{
  ℕ, ◌+◌, ◌-◌, ◌*◌, ◌/◌, ◌%◌, ◌<◌, ◌≤◌, ◌≡◌, sym, ap, ◌∙◌, arith, ℤ, pos, negsuc, ◌+ℤ◌, mod_ℤ,
}

-- A quotient and a remainder below the divisor are the division's.
pub div_mod_unique : (n k q r : ℕ) → r < k → n ≡ k * q + r → (n / k ≡ q) × (n % k ≡ r)
div_mod_unique n k q r h e = (
  ap (λ (t : ℕ). t / k) e ∙ omega (arith, mul-add-div {m = k} (omega arith) q r, div-eq_of_lt h),
  ap (λ (t : ℕ). t % k) e ∙ mul-add-mod_self_left k q r ∙ mod-eq_of_lt h,
)

mod_mul_mod : (n b l : ℕ) → (n % (b * l)) % b ≡ n % b
mod_mul_mod n b l =
    sym (ap (λ (k : ℕ). k % b) split ∙ mul-add-mod_self_left b (l * (n / (b * l))) _)
  where
    split : n ≡ b * (l * (n / (b * l))) + n % (b * l)
    split = omega (arith, div-add-mod n (b * l), mul_assoc b l (n / (b * l)))

pub mod_ℤ-lt : (c : ℤ) (k : ℕ) → 0 < k → mod_ℤ c k < k
unfolding mod_ℤ
mod_ℤ-lt (pos n) k h = mod-lt n h
mod_ℤ-lt (negsuc n) k h = omega arith

-- Within the rest of its bucket the clock's remainder moves with it.
add-mod_within : (n k i : ℕ) → n % k + i < k → (n + i) % k ≡ n % k + i
add-mod_within n k i h =
    (div_mod_unique (n + i) k (n / k) (n % k + i) h (omega (arith, div-add-mod n k))).1

sub-mod_within : (n k i : ℕ) → 0 < k → i ≤ n % k → (n - i) % k ≡ n % k - i
sub-mod_within n k i h le =
    (div_mod_unique (n - i) k (n / k) (n % k - i) (omega (arith, mod-lt n h))
      (omega (arith, div-add-mod n k))).1

pub mod_ℤ-add : (c : ℤ) (k i : ℕ) → mod_ℤ c k + i < k → mod_ℤ (c +ℤ pos i) k ≡ mod_ℤ c k + i
unfolding mod_ℤ ◌+ℤ◌
mod_ℤ-add (pos n) k i h = ground (arith, add-mod_within n k i h)
mod_ℤ-add (negsuc n) k i h = ground (
  arith,
  mod-le n k,
  mod-lt n {m = k} (omega arith),
  sub-mod_within n k i (omega arith) (omega arith),
)

-- The remainder counted from the other end.
mirror-mod : (n b l : ℕ) → 0 < b → 0 < l → (b * l - 1 - n % (b * l)) % b ≡ b - 1 - n % b
mirror-mod n b l hb hl =
    (div_mod_unique _ b (l - 1 - q) (b - 1 - n % b) (omega arith) (
      omega (
        arith,
        div-add-mod r b,
        mod_mul_mod n b l,
        mod-lt r hb,
        within,
        ap (λ (t : ℕ). b * t) parts,
      ))).1
  where
    r : ℕ
    r = n % (b * l)

    q : ℕ
    q = r / b

    within : q < l
    within = (div-lt_iff_lt-mul hb).1 (omega (arith, mul_comm l b, mod-lt n (mul-pos hb hl)))

    parts : l ≡ q + 1 + (l - 1 - q)
    parts = omega (arith, within)

pub mod_ℤ-mod : (c : ℤ) (b l : ℕ) → 0 < b → 0 < l → mod_ℤ c (b * l) % b ≡ mod_ℤ c b
unfolding mod_ℤ
mod_ℤ-mod (pos n) b l hb hl = mod_mul_mod n b l
mod_ℤ-mod (negsuc n) b l hb hl = mirror-mod n b l hb hl

block_fits : (b q l : ℕ) → q < l → b * q + b ≤ b * l
block_fits b q l h = grind arith

-- The bucket, as an index into the day, is that of any instant before the boundary.
pub bucket_within :
    (c : ℤ) (b l i : ℕ)
    → 0 < b
    → 0 < l
    → mod_ℤ c b + i < b
    → mod_ℤ (c +ℤ pos i) (b * l) / b ≡ mod_ℤ c (b * l) / b
bucket_within c b l i hb hl h =
    ap (λ (t : ℕ). t / b) moved
    ∙ (div_mod_unique (r + i) b q (s + i) (omega (arith, same)) (omega (arith, div-add-mod r b))).0
  where
    r : ℕ
    r = mod_ℤ c (b * l)

    q : ℕ
    q = r / b

    s : ℕ
    s = r % b

    same : s ≡ mod_ℤ c b
    same = mod_ℤ-mod c b l hb hl

    within : q < l
    within =
        (div-lt_iff_lt-mul hb).1 (omega (arith, mul_comm l b, mod_ℤ-lt c (b * l) (mul-pos hb hl)))

    moved : mod_ℤ (c +ℤ pos i) (b * l) ≡ r + i
    moved =
        mod_ℤ-add c (b * l) i
          (omega (arith, same, within, div-add-mod r b, block_fits b q l within))
