-- ===== src/Prelude/Int.antt =====
-- Python's integers. An integer is read through its two parts, which are native numbers.
use Prim.Native.Nat.{ℕ, zero, suc, ◌+◌, ◌-◌, ◌*◌, ◌/◌, ◌%◌, ◌≤◌, ◌<◌}
use mathlib.Core.Path.{◌≡◌, ap}
use mathlib.Core.Bool.{Bool, true, false}
use native.Mathlib.Omega.{arith}
use native.Mathlib.Nat.{
  lt-div-mul-add, div-lt_iff_lt-mul, div-mul-le_self, zero-div, div-eq_of_lt, add-div_right,
}
use osrm_microservice.Prelude.Tests.{ltb, leb, ◌==◌, if◌then◌else◌}

-- `negsuc n` is -(n + 1).
pub data ℤ : Type 0 where
  pos : ℕ → ℤ
  negsuc : ℕ → ℤ

abbrev pub pos_part : ℤ → ℕ
pos_part (pos n) = n
pos_part (negsuc n) = 0

abbrev pub neg_part : ℤ → ℕ
neg_part (pos n) = 0
neg_part (negsuc n) = suc n

abbrev pub sub_ℕ : ℕ → ℕ → ℤ
sub_ℕ a b = if leb b a then pos (a - b) else negsuc (b - a - 1)

infixl 65 ◌+ℤ◌ ◌-ℤ◌
infixl 70 ◌*ℤ◌
infix 50 ◌≤ℤ◌ ◌<ℤ◌
unfoldable pub ◌+ℤ◌ : ℤ → ℤ → ℤ
a +ℤ b = sub_ℕ (pos_part a + pos_part b) (neg_part a + neg_part b)

unfoldable pub ◌-ℤ◌ : ℤ → ℤ → ℤ
a -ℤ b = sub_ℕ (pos_part a + neg_part b) (neg_part a + pos_part b)

unfoldable pub ◌*ℤ◌ : ℤ → ℤ → ℤ
a *ℤ b =
    sub_ℕ (pos_part a * pos_part b + neg_part a * neg_part b)
      (pos_part a * neg_part b + neg_part a * pos_part b)

abbrev pub ◌≤ℤ◌ : ℤ → ℤ → Type 0
a ≤ℤ b = pos_part a + neg_part b ≤ pos_part b + neg_part a

abbrev pub ◌<ℤ◌ : ℤ → ℤ → Type 0
a <ℤ b = pos_part a + neg_part b < pos_part b + neg_part a

abbrev pub leb_ℤ : ℤ → ℤ → Bool
leb_ℤ a b = leb (pos_part a + neg_part b) (pos_part b + neg_part a)

abbrev pub ltb_ℤ : ℤ → ℤ → Bool
ltb_ℤ a b = ltb (pos_part a + neg_part b) (pos_part b + neg_part a)

abbrev pub eqb_ℤ : ℤ → ℤ → Bool
eqb_ℤ a b = (pos_part a + neg_part b) == (pos_part b + neg_part a)

-- Python's `max` and `min` of two integers.
unfoldable pub max_ℤ : ℤ → ℤ → ℤ
max_ℤ a b = if ltb_ℤ a b then b else a

unfoldable pub min_ℤ : ℤ → ℤ → ℤ
min_ℤ a b = if ltb_ℤ b a then b else a

-- Python's `a // k` for k > 0: it rounds down.
unfoldable pub div_ℤ : ℤ → ℕ → ℤ
div_ℤ (pos n) k = pos (n / k)
div_ℤ (negsuc n) k = negsuc (n / k)

-- Python's `a % k` for k > 0: it is never negative.
unfoldable pub mod_ℤ : ℤ → ℕ → ℕ
mod_ℤ (pos n) k = n % k
mod_ℤ (negsuc n) k = k - 1 - n % k

-- Python's `-(-a // k)` for k > 0.
unfoldable pub ceil_div_ℤ : ℤ → ℕ → ℤ
ceil_div_ℤ a k = pos 0 -ℤ div_ℤ (pos 0 -ℤ a) k

-- The same on numbers that are not negative: division that rounds up.
abbrev pub ceil_div : ℕ → ℕ → ℕ
ceil_div n k = (n + (k - 1)) / k

-- One equation for each operation lets `omega` work with the operations shut.
pub +ℤ_parts :
    (a b : ℤ)
    → pos_part (a +ℤ b) + neg_part a + neg_part b ≡ neg_part (a +ℤ b) + pos_part a + pos_part b
unfolding ◌+ℤ◌
+ℤ_parts a b = ground arith

pub -ℤ_parts :
    (a b : ℤ)
    → pos_part (a -ℤ b) + neg_part a + pos_part b ≡ neg_part (a -ℤ b) + pos_part a + neg_part b
unfolding ◌-ℤ◌
-ℤ_parts a b = ground arith

pub eq_of_parts : (a b : ℤ) → pos_part a + neg_part b ≡ pos_part b + neg_part a → a ≡ b
eq_of_parts a b h = ground arith

pub max_ℤ_le : (a b : ℤ) → (a ≤ℤ max_ℤ a b) × (b ≤ℤ max_ℤ a b)
unfolding max_ℤ
max_ℤ_le a b = ground arith

pub ruleset int_laws = (arith, +ℤ_parts, -ℤ_parts, eq_of_parts, max_ℤ_le)

pub ltb→<ℤ : (a b : ℤ) → ltb_ℤ a b ≡ true → a <ℤ b
ltb→<ℤ a b h = ground arith

pub <ℤ→ltb : (a b : ℤ) → a <ℤ b → ltb_ℤ a b ≡ true
<ℤ→ltb a b h = ground arith

pub ltb-false→≤ℤ : (a b : ℤ) → ltb_ℤ a b ≡ false → b ≤ℤ a
ltb-false→≤ℤ a b h = ground arith

pub ≤ℤ→ltb-false : (a b : ℤ) → a ≤ℤ b → ltb_ℤ b a ≡ false
≤ℤ→ltb-false a b h = ground arith

pub min_ℤ_le : (a b : ℤ) → (min_ℤ a b ≤ℤ a) × (min_ℤ a b ≤ℤ b)
unfolding min_ℤ
min_ℤ_le a b = ground arith

pub leb→≤ℤ : (a b : ℤ) → leb_ℤ a b ≡ true → a ≤ℤ b
leb→≤ℤ a b h = ground arith

pub ≤ℤ→leb : (a b : ℤ) → a ≤ℤ b → leb_ℤ a b ≡ true
≤ℤ→leb a b h = ground arith

pub leb-false→<ℤ : (a b : ℤ) → leb_ℤ a b ≡ false → b <ℤ a
leb-false→<ℤ a b h = ground arith

pub <ℤ→leb-false : (a b : ℤ) → b <ℤ a → leb_ℤ a b ≡ false
<ℤ→leb-false a b h = ground arith

-- `ceil_div n k` is the least multiple count of `k` that reaches `n`.
pub ceil_div_enough : (n k : ℕ) → 0 < k → n ≤ ceil_div n k * k
ceil_div_enough n k h = omega (arith, lt-div-mul-add {a = n + (k - 1)} {b = k} h)

pub ceil_div_least : (n k s : ℕ) → 0 < k → n ≤ s * k → ceil_div n k ≤ s
ceil_div_least n k s h le =
    omega (arith, (div-lt_iff_lt-mul {x = n + (k - 1)} {y = s + 1} h).1 (omega arith))

pub ceil_div_below : (n k s : ℕ) → 0 < k → s < ceil_div n k → s * k < n
ceil_div_below n k s h lt = grind (arith, ceil_div_least n k s h)

pub ceil_div_lt : (n k : ℕ) → 0 < k → ceil_div n k * k < n + k
ceil_div_lt n k h = omega (arith, div-mul-le_self (n + (k - 1)) k)

pub ceil_div_mono : (a b k : ℕ) → 0 < k → a ≤ b → ceil_div a k ≤ ceil_div b k
ceil_div_mono a b k h le = ceil_div_least a k _ h (omega (arith, ceil_div_enough b k h))

-- How far `b` is above `a`; 0 if it is not.
abbrev pub gap : ℤ → ℤ → ℕ
gap a b = pos_part b + neg_part a - (pos_part a + neg_part b)

pub gap_lem : (a b : ℤ) → a ≤ℤ b → b ≡ a +ℤ pos (gap a b)
gap_lem a b h = omega int_laws

zero_minus : (n : ℕ) → (pos 0 -ℤ pos (suc n) ≡ negsuc n) × (pos 0 -ℤ negsuc n ≡ pos (suc n))
unfolding ◌-ℤ◌
zero_minus n = ground arith

pub ceil_div_ℤ-pos : (n k : ℕ) → 0 < k → ceil_div_ℤ (pos n) k ≡ pos (ceil_div n k)
unfolding ceil_div_ℤ div_ℤ
ceil_div_ℤ-pos zero k h =
    unfold ◌-ℤ◌ in ground (arith, zero-div k, div-eq_of_lt {n = k - 1} {m = k} (omega arith))
ceil_div_ℤ-pos (suc n) k h =
    rw ((zero_minus n).0, (zero_minus (n / k)).1)
      (let e : suc n + (k - 1) ≡ n + k = omega arith in
        rw e (ap pos (omega (arith, add-div_right n h))))

-- Products and differences of numbers that are not negative.
pub *ℤ-pos : (a b : ℕ) → pos a *ℤ pos b ≡ pos (a * b)
unfolding ◌*ℤ◌
*ℤ-pos a b = ground arith

pub +ℤ-pos : (a b : ℕ) → pos a +ℤ pos b ≡ pos (a + b)
unfolding ◌+ℤ◌
+ℤ-pos a b = ground arith

pub -ℤ-pos : (a b : ℕ) → b ≤ a → pos a -ℤ pos b ≡ pos (a - b)
unfolding ◌-ℤ◌
-ℤ-pos a b h = ground arith
