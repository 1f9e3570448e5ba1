-- ===== src/Model/Vehicle.antt =====
-- `Vehicle` of vrp/model.py.
use osrm_microservice.Prelude.{
  Bool, ◌&&◌, ◌||◌, not, Option, none, some, List, if◌then◌else◌, String, ℤ, pos, leb_ℤ, ltb_ℤ,
  eqb_ℤ, Result, ok, validation_error, require, ◌>>◌,
}
use osrm_microservice.Battery.{ChargingCurve, full_ppt}
use osrm_microservice.Hos.Rules.{DriverState}
use osrm_microservice.Model.Window.{TimeWindow}
use osrm_microservice.Model.Stop.{
  Quantities, is_given, not_negative, not_negative_if_given, all_not_negative,
}
use osrm_microservice.Model.Order.{is_some, is_empty}

pub record Vehicle : Type 0 where
  pub id : String
  pub capacities : Quantities
  pub shift : TimeWindow
  pub start_location_id : String
  pub end_location_id : Option String
  pub max_duration : Option ℤ
  pub max_distance : Option ℤ
  pub skills : List String
  pub fixed_cost : ℤ
  pub cost_per_metre : ℤ
  pub cost_per_second : ℤ
  pub overtime_cost_per_second : ℤ
  pub cost_per_order : ℤ
  pub profile : String
  pub service_factor_ppt : ℤ
  pub reload_locations : List String
  pub max_reloads : ℤ
  pub reload_duration : ℤ
  pub battery_wh : Option ℤ
  pub consumption_wh_per_km : ℤ
  pub charger_locations : List String
  pub charging_curve : Option ChargingCurve
  pub initial_soc_ppt : ℤ
  pub access_class : Option String
  pub gross_weight_kg : Option ℤ
  pub open_route : Bool
  pub hos_rules : Option String
  pub initial_state : Option DriverState

abbrev positive : ℤ → Bool
positive a = ltb_ℤ (pos 0) a

-- `_require_coherent_battery`, by whether there is a battery.
unfoldable pub coherent_battery : Option ℤ → Vehicle → Bool
coherent_battery none v =
    is_empty v.charger_locations
    && not (is_some v.charging_curve)
    && eqb_ℤ v.consumption_wh_per_km (pos 0)
coherent_battery (some wh) v =
    positive wh
    && positive v.consumption_wh_per_km
    && is_some v.charging_curve
    && leb_ℤ (pos 0) v.initial_soc_ppt
    && leb_ℤ v.initial_soc_ppt (pos full_ppt)

-- `Vehicle.__post_init__`
unfoldable pub check_vehicle : Vehicle → Result Vehicle
unfolding coherent_battery
check_vehicle v = do
  require (is_given v.id) validation_error
  require (all_not_negative v.capacities) validation_error
  require (is_given v.start_location_id) validation_error
  require (not_negative_if_given v.max_duration) validation_error
  require (not_negative_if_given v.max_distance) validation_error
  require (not_negative v.fixed_cost) validation_error
  require (not_negative v.cost_per_metre) validation_error
  require (not_negative v.cost_per_second) validation_error
  require (not_negative v.overtime_cost_per_second) validation_error
  require (not_negative v.cost_per_order) validation_error
  require (is_given v.profile) validation_error
  require (not_negative v.max_reloads) validation_error
  require (not_negative v.reload_duration) validation_error
  require (eqb_ℤ v.max_reloads (pos 0) || not (is_empty v.reload_locations)) validation_error
  require (positive v.service_factor_ppt) validation_error
  require (coherent_battery v.battery_wh v) validation_error
  ok v

unfoldable pub is_electric : Vehicle → Bool
is_electric v = is_some v.battery_wh

-- `self.end_location_id or self.start_location_id`: an empty text counts as none.
abbrev or_start : Option String → String → String
or_start none start = start
or_start (some e) start = if is_given e then e else start

unfoldable pub ends_at : Vehicle → String
ends_at v = or_start v.end_location_id v.start_location_id
