-- ===== src/Model/Service.antt =====
-- `may_enter`, `has_skills_for` and `service_time` of vrp/model.py.
use osrm_microservice.Prelude.{
  Bool, false, ◌&&◌, not, Option, none, some, if◌then◌else◌, String, str_eq, member, is_subset,
  amount, total, ℤ, pos, ◌+ℤ◌, ◌*ℤ◌, div_ℤ, ltb_ℤ, eqb_ℤ,
}
use osrm_microservice.Model.Stop.{Location, StopSpec, Quantities, is_given}
use osrm_microservice.Model.Order.{Order, is_empty}
use osrm_microservice.Model.Vehicle.{Vehicle}

abbrev pub in_classes : Option String → Location → Bool
in_classes none site = false
in_classes (some c) site = member c site.access_classes

abbrev pub too_heavy : Option ℤ → Option ℤ → Bool
too_heavy (some limit) (some weight) = ltb_ℤ limit weight
too_heavy _ _ = false

unfoldable pub may_enter : Vehicle → Location → Bool
may_enter v site =
    if not (is_empty site.access_classes) && not (in_classes v.access_class site)
    then false
    else not (too_heavy site.max_vehicle_kg v.gross_weight_kg)

unfoldable pub has_skills_for : Vehicle → Order → Bool
has_skills_for v o = is_subset o.required_skills v.skills

-- `order.delivery or order.pickup`
abbrev pub delivery_or_pickup : Order → Option StopSpec
delivery_or_pickup o = elim o.delivery [ some d ↦ some d | none ↦ o.pickup ]

-- The stop of the order that is at the location; `none` only for an order with no stop.
unfoldable pub stop_at : Option StopSpec → Option StopSpec → String → Option StopSpec
stop_at (some p) (some d) at =
    if str_eq at p.location_id && not (str_eq at d.location_id) then some p else some d
stop_at pickup (some d) at = some d
stop_at pickup none at = pickup

-- `dimension` is falsy if it is missing or empty: then all quantities count.
abbrev quantity_of : Option String → Quantities → ℤ
quantity_of none q = total q
quantity_of (some dimension) q = if is_given dimension then amount dimension q else total q

unfoldable pub handled_quantity : StopSpec → Quantities → ℤ
handled_quantity s q =
    if eqb_ℤ s.service_per_unit (pos 0) then pos 0 else quantity_of s.service_per_unit_dimension q

unfoldable pub stop_service : StopSpec → Order → Vehicle → Location → ℤ
stop_service s o v l =
    let handling = s.service_fixed +ℤ s.service_per_unit *ℤ handled_quantity s o.quantities in
    div_ℤ (handling *ℤ v.service_factor_ppt) 1000 +ℤ l.dwell_overhead

-- An order that was constructed has a stop; without one the source raises an attribute error.
unfoldable pub service_time : Order → Vehicle → Location → Option ℤ
unfolding stop_service
service_time o v l = elim (stop_at o.pickup o.delivery l.id) [
  | some s ↦ some (stop_service s o v l)
  | none ↦ none
]
