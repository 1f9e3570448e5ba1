-- ===== src/Prelude/Sums.antt =====
-- Sums, counts and extremes over lists.
use osrm_microservice.Prelude.Tests.{if◌then◌else◌}
use osrm_microservice.Prelude.Int.{ℤ, pos, ◌+ℤ◌, max_ℤ, min_ℤ}
use osrm_microservice.Prelude.Errors.{Result, ok, ◌>>=◌}
use Prim.Native.Nat.{ℕ, suc}
use mathlib.Core.Bool.{Bool}
use mathlib.Core.List.{List, [], ◌∷◌}

module _ {ℓ} {A : Type ℓ} where
  -- `sum(f(x) for x in xs)`
  abbrev pub sum_of : (A → ℤ) → List A → ℤ
  sum_of f [] = pos 0
  sum_of f (x ∷ xs) = f x +ℤ sum_of f xs

  -- The same where `f` may raise.
  abbrev pub sum_result : (A → Result ℤ) → List A → Result ℤ
  sum_result f [] = ok (pos 0)
  sum_result f (x ∷ xs) = do a ← f x; rest ← sum_result f xs; ok (a +ℤ rest)

  -- `sum(1 for x in xs if test(x))`
  abbrev pub count_if : (A → Bool) → List A → ℕ
  count_if test [] = 0
  count_if test (x ∷ xs) = let rest = count_if test xs in if test x then suc rest else rest

-- `max(xs, default=0)` and `min(xs, default=0)`
unfoldable pub greatest : List ℤ → ℤ
greatest [] = pos 0
greatest (a ∷ []) = a
greatest (a ∷ b ∷ rest) = max_ℤ a (greatest (b ∷ rest))

unfoldable pub least : List ℤ → ℤ
least [] = pos 0
least (a ∷ []) = a
least (a ∷ b ∷ rest) = min_ℤ a (least (b ∷ rest))
