-- ===== src/Model/Order.antt =====
-- `Order` of vrp/model.py, its checks, its precedence and whether it must be served.
use osrm_microservice.Prelude.{
  ℕ, Bool, true, false, ◌&&◌, ◌||◌, not, Option, none, some, List, [], ◌∷◌, ◌++◌, if◌then◌else◌,
  String, str_eq, ℤ, pos, ltb_ℤ, eqb_ℤ, Result, ok, validation_error, require, ◌>>◌,
}
use osrm_microservice.Model.Stop.{Quantities, StopSpec, is_given, all_not_negative}

pub data Kind : Type 0 where
  job shipment : Kind

pub data PrioritySource : Type 0 where
  statutory sla commercial : PrioritySource

-- `kind in ("JOB", "SHIPMENT")`, and membership in `PRIORITY_SOURCES`.
unfoldable pub kind_of : String → Option Kind
kind_of text =
    if str_eq text "JOB" then some job else if str_eq text "SHIPMENT" then some shipment else none

unfoldable pub source_of : String → Option PrioritySource
source_of text =
    if str_eq text "STATUTORY"
    then some statutory
    else if str_eq text "SLA"
    then some sla
    else if str_eq text "COMMERCIAL"
    then some commercial
    else none

pub record Order : Type 0 where
  pub id : String
  pub kind : Kind
  pub quantities : Quantities
  pub pickup : Option StopSpec
  pub delivery : Option StopSpec
  pub priority_tier : ℤ
  pub prize : ℤ
  pub release_time : ℤ
  pub required_skills : List String
  pub max_ride_time : Option ℤ
  pub priority_source : PrioritySource
  pub order_class : Option String
  pub incompatible_with : List String

abbrev pub is_some {ℓ} : {A : Type ℓ} → Option A → Bool
is_some none = false
is_some (some a) = true

abbrev pub is_shipment : Kind → Bool
is_shipment job = false
is_shipment shipment = true

abbrev is_statutory : PrioritySource → Bool
is_statutory statutory = true
is_statutory _ = false

-- A shipment has both stops, a job exactly one.
abbrev right_stops : Kind → Option StopSpec → Option StopSpec → Bool
right_stops shipment (some p) (some d) = true
right_stops job (some p) none = true
right_stops job none (some d) = true
right_stops _ _ _ = false

abbrev ride_allowed : Kind → Option ℤ → Bool
ride_allowed k none = true
ride_allowed k (some t) = ltb_ℤ (pos 0) t && is_shipment k

abbrev names_class : Option String → Bool
names_class none = false
names_class (some c) = is_given c

abbrev pub is_empty {ℓ} : {A : Type ℓ} → List A → Bool
is_empty [] = true
is_empty (x ∷ xs) = false

-- `Order.__post_init__`
unfoldable pub check_order : Order → Result Order
check_order o = do
  require (is_given o.id) validation_error
  require (all_not_negative o.quantities) validation_error
  require (right_stops o.kind o.pickup o.delivery) validation_error
  require (ride_allowed o.kind o.max_ride_time) validation_error
  require (not (is_statutory o.priority_source) || eqb_ℤ o.prize (pos 0)) validation_error
  require (is_empty o.incompatible_with || names_class o.order_class) validation_error
  ok o

abbrev pub given_stop : Option StopSpec → List StopSpec
given_stop none = []
given_stop (some s) = s ∷ []

unfoldable pub stops : Order → List StopSpec
stops o = given_stop o.pickup ++ given_stop o.delivery

-- `PRIORITY_SOURCES.index(source)`
unfoldable pub source_rank : PrioritySource → ℕ
source_rank statutory = 0
source_rank sla = 1
source_rank commercial = 2

unfoldable pub precedence : Order → ℤ × ℕ
unfolding source_rank
precedence o = (o.priority_tier, source_rank o.priority_source)

unfoldable pub must_be_served : Order → Bool
must_be_served o = eqb_ℤ o.priority_tier (pos 0) || eqb_ℤ o.prize (pos 0)
