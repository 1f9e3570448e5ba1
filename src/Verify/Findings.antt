-- ===== src/Verify/Findings.antt =====
-- `Violation` and `Report` of vrp/verify/verifier.py. The text of a violation is not modelled; a
-- check returns the violations that it adds to the report, in their order.
pub mod Clean
use osrm_microservice.Prelude.{
  Bool, true, false, Option, none, some, List, [], ◌∷◌, ◌++◌, if◌then◌else◌, String, ℕ, ℤ, Result,
  ok, ◌>>=◌,
}
use osrm_microservice.Model.Order.{is_empty}
use osrm_microservice.Model.Matrix.{distance}
use osrm_microservice.Model.Plan.{Step}
use osrm_microservice.Model.Problem.{Problem, location, position}

-- The invariants by their numbers, "INV-1" to "INV-17".
pub data Invariant : Type 0 where
  inv_1 inv_2 inv_3 inv_4 inv_5 inv_6 inv_7 inv_8 inv_9 inv_10 inv_11 inv_12 : Invariant
  inv_13 inv_14 inv_15 inv_16 inv_17 : Invariant

pub record Violation : Type 0 where
  pub invariant : Invariant
  pub vehicle_id : Option String
  pub order_id : Option String

pub record Report : Type 0 where
  pub violations : List Violation
  pub not_applicable : List Invariant

-- `Report.ok`
unfoldable pub accepts : Report → Bool
accepts r = is_empty r.violations

-- `if test: report.fail(...)`
abbrev pub fails_if : Bool → Violation → List Violation
fails_if true x = x ∷ []
fails_if false x = []

-- The subjects of a violation.
abbrev pub on_order : Invariant → String → Violation
on_order i o = record { invariant = i; vehicle_id = none; order_id = some o }

abbrev pub on_vehicle : Invariant → String → Violation
on_vehicle i v = record { invariant = i; vehicle_id = some v; order_id = none }

abbrev pub on_step : Invariant → String → Step → Violation
on_step i v step = record { invariant = i; vehicle_id = some v; order_id = step.order_id }

abbrev pub on_plan : Invariant → Violation
on_plan i = record { invariant = i; vehicle_id = none; order_id = none }

-- A loop whose body adds violations, and one whose body may raise.
abbrev pub gather {ℓ} : {A B : Type ℓ} → (A → List B) → List A → List B
gather f [] = []
gather f (x ∷ xs) = f x ++ gather f xs

abbrev pub each {ℓ κ} : {A : Type ℓ} {B : Type κ} → (A → Result (List B)) → List A → Result (List B)
each f [] = ok []
each f (x ∷ xs) = do found ← f x; more ← each f xs; ok (found ++ more)

-- The matrix indices of two steps.
unfoldable pub arc_of : Problem → Step → Step → Result (ℕ × ℕ)
arc_of p previous current = do
  origin ← location p previous.location_id
  destination ← location p current.location_id
  ok (position origin, position destination)

-- `matrix.distance` between two steps.
unfoldable pub arc_metres : Problem → Step → Step → Result ℤ
unfolding arc_of
arc_metres p previous current = do
  (origin, destination) ← arc_of p previous current
  distance p.matrix origin destination
