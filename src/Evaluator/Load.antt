-- ===== src/Evaluator/Load.antt =====
-- What is on board: the load that a route leaves with, and what a stop does to it. The same rule
-- stands in `build_timeline` of vrp/evaluator.py and in `schedule_route` of vrp/hos/schedule.py.
pub mod Amounts
pub mod NotNegative
use osrm_microservice.Prelude.{
  List, [], ◌∷◌, map, if◌then◌else◌, String, member, amount, insert, ℤ, pos, ◌+ℤ◌, ◌-ℤ◌,
}
use osrm_microservice.Model.Stop.{Quantities}
use osrm_microservice.Model.Order.{Order, is_some}

add_keys : Quantities → List String → List String
add_keys [] seen = seen
add_keys ((k, q) ∷ rest) seen = add_keys rest (if member k seen then seen else k ∷ seen)

-- The set of all dimensions of the orders. Its order is not observed.
dimensions_from : List Order → List String → List String
unfolding add_keys
dimensions_from [] seen = seen
dimensions_from (o ∷ os) seen = dimensions_from os (add_keys o.quantities seen)

unfoldable pub dimensions : List Order → List String
unfolding dimensions_from
dimensions os = dimensions_from os []

-- `sum(order.quantities.get(dimension, 0) for order in orders if order.delivery is not None)`
unfoldable pub to_deliver : String → List Order → ℤ
to_deliver dimension [] = pos 0
to_deliver dimension (o ∷ os) =
    if is_some o.delivery
    then amount dimension o.quantities +ℤ to_deliver dimension os
    else to_deliver dimension os

unfoldable pub initial_load : List Order → Quantities
unfolding dimensions to_deliver
initial_load os = map (λ d. (d, to_deliver d os)) (dimensions os)

take_off : Quantities → Quantities → Quantities
take_off [] load = load
take_off ((k, q) ∷ rest) load = take_off rest (insert k (amount k load -ℤ q) load)

put_on : Quantities → Quantities → Quantities
put_on [] load = load
put_on ((k, q) ∷ rest) load = put_on rest (insert k (amount k load +ℤ q) load)

-- A delivery takes the order's quantities off, a pickup puts them on.
unfoldable pub serve_load : Order → Quantities → Quantities
unfolding take_off put_on
serve_load o load =
    if is_some o.delivery then take_off o.quantities load else put_on o.quantities load
