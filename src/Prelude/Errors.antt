-- ===== src/Prelude/Errors.antt =====
-- Fallible code. An error is the class of the exception that the program raises; its message is
-- not modelled.
use mathlib.Core.Path.{◌≡◌, refl}
use mathlib.Core.Bool.{Bool, true, false}
use mathlib.Core.List.{List, [], ◌∷◌}
use mathlib.Core.Option.{Option, none, some}

-- `out_of_fuel` is no exception of the program: it marks a loop that was given too few rounds.
pub data Error : Type 0 where
  value_error validation_error unreachable_arc key_error index_error not_implemented out_of_fuel :
      Error

pub data Result {ℓ} (Value : Type ℓ) : Type ℓ where
  err : Error → Result Value
  ok : Value → Result Value

module _ {ℓ κ} {A : Type ℓ} {B : Type κ} where
  infixl 5 ◌>>=◌ ◌>>◌
  abbrev pub ◌>>=◌ : Result A → (A → Result B) → Result B
  err reason >>= next = err reason
  ok x >>= next = next x

  abbrev pub ◌>>◌ : Result A → Result B → Result B
  first >> then = first >>= λ _. then

  -- A chain that returns has passed through each of its parts.
  pub >>=-eq-ok :
      (first : Result A) (next : A → Result B) {y : B}
      → (first >>= next) ≡ ok y
      → (x : A) × (first ≡ ok x) × (next x ≡ ok y)
  >>=-eq-ok (err reason) next same = cc
  >>=-eq-ok (ok x) next same = (x, refl, same)

-- `if not test: raise e`
abbrev pub require : Bool → Error → Result (Unit {0})
require true e = ok tt
require false e = err e

abbrev pub or_raise {ℓ} : {A : Type ℓ} → Option A → Error → Result A
or_raise (some a) e = ok a
or_raise none e = err e

-- A loop that may raise at each element.
abbrev pub map_result {ℓ κ} : {A : Type ℓ} {B : Type κ} → (A → Result B) → List A → Result (List B)
map_result f [] = ok []
map_result f (x ∷ xs) = do y ← f x; ys ← map_result f xs; ok (y ∷ ys)

pub require-eq-ok : (b : Bool) (e : Error) {u : Unit {0}} → require b e ≡ ok u → b ≡ true
require-eq-ok true e h = refl
require-eq-ok false e h = cc

pub ok-injective {ℓ} : {A : Type ℓ} {a b : A} → ok a ≡ ok b → a ≡ b
ok-injective e = cc
