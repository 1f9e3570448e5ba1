-- ===== src/Model/Problem.antt =====
-- `Problem` of vrp/model.py: the instance, its lookups, and the checks across its parts.
use osrm_microservice.Prelude.{
  ℕ, zero, suc, Bool, true, false, ◌&&◌, ◌==◌, not, Option, none, some, List, [], ◌∷◌, map, all,
  any, if◌then◌else◌, String, str_eq, member, all_distinct, ℤ, pos, pos_part, leb_ℤ, ltb_ℤ, Result,
  ok, err, validation_error, require, ◌>>◌,
}
use osrm_microservice.TimeDependent.{SpeedProfile, ArcClass, local, arterial, trunk, arc_class_of}
use osrm_microservice.Model.Window.{TimeWindow}
use osrm_microservice.Model.Stop.{Location, is_given}
use osrm_microservice.Model.Order.{Order, stops, is_some, is_empty}
use osrm_microservice.Model.Vehicle.{Vehicle}
use osrm_microservice.Model.Matrix.{TravelMatrix, size, duration}
use osrm_microservice.Model.Instruction.{Lock, Synchronisation}

-- A mapping from arc classes to profiles; a key that is no arc class is never looked up.
abbrev pub Profiles : Type 0
Profiles = List (ArcClass × SpeedProfile)

pub record Problem : Type 0 where
  pub id : String
  pub locations : List Location
  pub orders : List Order
  pub vehicles : List Vehicle
  pub matrix : TravelMatrix
  pub horizon : Option TimeWindow
  pub locks : List Lock
  pub synchronisations : List Synchronisation
  pub speed_profile : Option SpeedProfile
  pub speed_profiles : Option Profiles

abbrev same_class : ArcClass → ArcClass → Bool
same_class local local = true
same_class arterial arterial = true
same_class trunk trunk = true
same_class _ _ = false

-- `speed_profiles.get(arc_class)`
unfoldable pub profile_of : ArcClass → Profiles → Option SpeedProfile
profile_of c [] = none
profile_of c ((k, p) ∷ ps) = if same_class k c then some p else profile_of c ps

-- The numbers below `n`, as `range(n)`.
abbrev pub range_from : ℕ → ℕ → List ℕ
range_from start zero = []
range_from start (suc n) = start ∷ range_from (suc start) n

-- The arc needs a profile that the mapping lacks. A cell that cannot be read needs none.
unfoldable pub lacks_profile : TravelMatrix → Profiles → ℕ → ℕ → Bool
lacks_profile m ps origin destination = elim (duration m origin destination) [
  | ok d ↦
      not (origin == destination)
      && ltb_ℤ (pos 0) d
      && not (is_some (profile_of (arc_class_of d) ps))
  | err e ↦ false
]

-- `_require_coherent_profiles`
unfoldable pub coherent_profiles : TravelMatrix → Option SpeedProfile → Option Profiles → Bool
unfolding lacks_profile
coherent_profiles m one none = true
coherent_profiles m one (some ps) =
    not (is_some one)
    && not (is_empty ps)
    && not (
        any (λ o. any (λ d. lacks_profile m ps o d) (range_from 0 (size m)))
          (range_from 0 (size m)))

distinct_indices : List ℤ → Bool
distinct_indices [] = true
distinct_indices (i ∷ is) = not (any (λ j. leb_ℤ i j && leb_ℤ j i) is) && distinct_indices is

abbrev known_if_given : List String → Option String → Bool
known_if_given ids none = true
known_if_given ids (some text) = member text ids

-- `Problem.__post_init__`, the checks in the order of the source.
unfoldable pub check_problem : Problem → Result Problem
unfolding coherent_profiles distinct_indices
check_problem p = do
  require (is_given p.id) validation_error
  require (all_distinct (map (λ l. l.id) p.locations)) validation_error
  require (distinct_indices (map (λ l. l.matrix_index) p.locations)) validation_error
  require (all (λ l. ltb_ℤ l.matrix_index (pos (size p.matrix))) p.locations) validation_error
  require (coherent_profiles p.matrix p.speed_profile p.speed_profiles) validation_error
  require (all_distinct (map (λ o. o.id) p.orders)) validation_error
  require
      (all (λ o. all (λ s. member s.location_id (map (λ l. l.id) p.locations)) (stops o)) p.orders)
      validation_error
  require
      (all
        (λ s.
          member s.first (map (λ o. o.id) p.orders) && member s.second (map (λ o. o.id) p.orders))
        p.synchronisations)
      validation_error
  require
      (all
        (λ v.
          member v.start_location_id (map (λ l. l.id) p.locations)
          && known_if_given (map (λ l. l.id) p.locations) v.end_location_id)
        p.vehicles)
      validation_error
  require
      (all
        (λ k.
          known_if_given (map (λ o. o.id) p.orders) k.order_id
          && all (λ i. member i (map (λ o. o.id) p.orders)) k.order_ids
          && known_if_given (map (λ v. v.id) p.vehicles) k.vehicle_id)
        p.locks)
      validation_error
  ok p

-- `problem.location(id)` and its two siblings: the first with the identifier.
unfoldable pub find_location : List Location → String → Result Location
find_location [] i = err validation_error
find_location (l ∷ ls) i = if str_eq l.id i then ok l else find_location ls i

unfoldable pub find_order : List Order → String → Result Order
find_order [] i = err validation_error
find_order (o ∷ os) i = if str_eq o.id i then ok o else find_order os i

find_vehicle : List Vehicle → String → Result Vehicle
find_vehicle [] i = err validation_error
find_vehicle (v ∷ vs) i = if str_eq v.id i then ok v else find_vehicle vs i

unfoldable pub location : Problem → String → Result Location
unfolding find_location
location p = find_location p.locations

unfoldable pub order : Problem → String → Result Order
unfolding find_order
order p = find_order p.orders

unfoldable pub vehicle : Problem → String → Result Vehicle
unfolding find_vehicle
vehicle p = find_vehicle p.vehicles

-- A matrix index as a position; a location that was constructed has no negative one.
abbrev pub position : Location → ℕ
position l = pos_part l.matrix_index
