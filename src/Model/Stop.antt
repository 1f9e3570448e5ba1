-- ===== src/Model/Stop.antt =====
-- `Location` and `StopSpec` of vrp/model.py. Latitude and longitude are floats that the program only
-- checks for their range, and are left out.
use osrm_microservice.Prelude.{
  Bool, true, ◌&&◌, not, Option, none, some, List, [], ◌∷◌, all, String, str_eq, ℤ, pos, leb_ℤ,
  ltb_ℤ, Result, ok, validation_error, require, ◌>>◌,
}
use osrm_microservice.Model.Window.{TimeWindow}

abbrev pub Quantities : Type 0
Quantities = List (String × ℤ)

pub record Location : Type 0 where
  pub id : String
  pub matrix_index : ℤ
  pub dwell_overhead : ℤ
  pub dock_capacity : Option ℤ
  pub inventory : Option Quantities
  pub access_classes : List String
  pub max_vehicle_kg : Option ℤ

pub record StopSpec : Type 0 where
  pub location_id : String
  pub time_windows : List TimeWindow
  pub service_fixed : ℤ
  pub service_per_unit : ℤ
  pub service_per_unit_dimension : Option String

-- `bool(text)`
abbrev pub is_given : String → Bool
is_given text = not (str_eq text "")

abbrev pub not_negative : ℤ → Bool
not_negative a = leb_ℤ (pos 0) a

-- `if a is not None: _require(a >= 0, ...)`
abbrev pub not_negative_if_given : Option ℤ → Bool
not_negative_if_given none = true
not_negative_if_given (some a) = not_negative a

abbrev pub all_not_negative : Quantities → Bool
all_not_negative = all (λ e. not_negative e.1)

abbrev stock_not_negative : Option Quantities → Bool
stock_not_negative none = true
stock_not_negative (some stock) = all_not_negative stock

-- `Location.__post_init__`
unfoldable pub check_location : Location → Result Location
check_location l = do
  require (is_given l.id) validation_error
  require (not_negative l.matrix_index) validation_error
  require (not_negative l.dwell_overhead) validation_error
  require (not_negative_if_given l.dock_capacity) validation_error
  require (stock_not_negative l.inventory) validation_error
  require (not_negative_if_given l.max_vehicle_kg) validation_error
  ok l

-- The loop over the windows: each starts after the one before it has ended.
unfoldable pub sorted_after : Option ℤ → List TimeWindow → Bool
sorted_after previous_end [] = true
sorted_after none (w ∷ ws) = sorted_after (some w.end) ws
sorted_after (some e) (w ∷ ws) = ltb_ℤ e w.start && sorted_after (some w.end) ws

-- `StopSpec.__post_init__`
unfoldable pub check_stop : StopSpec → Result StopSpec
unfolding sorted_after
check_stop s = do
  require (is_given s.location_id) validation_error
  require (not_negative s.service_fixed) validation_error
  require (not_negative s.service_per_unit) validation_error
  require (sorted_after none s.time_windows) validation_error
  ok s
