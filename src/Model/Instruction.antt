-- ===== src/Model/Instruction.antt =====
-- `Lock` and `Synchronisation` of vrp/model.py: what an operator pins, and what couples two orders.
use osrm_microservice.Prelude.{
  Bool, true, false, ◌||◌, not, Option, none, some, List, [], ◌∷◌, all, String, str_eq, ℤ, leb_ℤ,
  Result, ok, validation_error, require, ◌>>◌,
}
use osrm_microservice.Model.Stop.{is_given, not_negative}
use osrm_microservice.Model.Order.{is_some, is_empty}

pub data LockKind : Type 0 where
  pin_order_to_vehicle forbid_order_on_vehicle fix_route_prefix fix_sequence : LockKind
  force_deploy forbid_deploy pin_depot freeze_until : LockKind

pub data LockField : Type 0 where
  order_id vehicle_id order_ids depot_id instant : LockField

pub record Lock : Type 0 where
  pub kind : LockKind
  pub order_id : Option String
  pub vehicle_id : Option String
  pub order_ids : List String
  pub depot_id : Option String
  pub instant : Option ℤ

-- `LOCK_REQUIREMENTS`
unfoldable pub lock_requirements : LockKind → List LockField
lock_requirements pin_order_to_vehicle = LockField.order_id ∷ LockField.vehicle_id ∷ []
lock_requirements forbid_order_on_vehicle = LockField.order_id ∷ LockField.vehicle_id ∷ []
lock_requirements fix_route_prefix = LockField.vehicle_id ∷ LockField.order_ids ∷ []
lock_requirements fix_sequence = LockField.vehicle_id ∷ LockField.order_ids ∷ []
lock_requirements force_deploy = LockField.vehicle_id ∷ []
lock_requirements forbid_deploy = LockField.vehicle_id ∷ []
lock_requirements pin_depot = LockField.order_id ∷ LockField.depot_id ∷ []
lock_requirements freeze_until = LockField.instant ∷ []

abbrev names : Option String → Bool
names none = false
names (some text) = is_given text

-- `bool(value)`, but `value is not None` for the instant, where zero is an answer.
unfoldable pub field_given : Lock → LockField → Bool
field_given l LockField.order_id = names l.order_id
field_given l LockField.vehicle_id = names l.vehicle_id
field_given l LockField.order_ids = not (is_empty l.order_ids)
field_given l LockField.depot_id = names l.depot_id
field_given l LockField.instant = is_some l.instant

-- `Lock.__post_init__`
unfoldable pub check_lock : Lock → Result Lock
unfolding lock_requirements field_given
check_lock l = do require (all (field_given l) (lock_requirements l.kind)) validation_error; ok l

pub data SyncKind : Type 0 where
  transfer convoy : SyncKind

pub record Synchronisation : Type 0 where
  pub kind : SyncKind
  pub first : String
  pub second : String
  pub min_gap : ℤ
  pub max_gap : Option ℤ

abbrev covers_gap : ℤ → Option ℤ → Bool
covers_gap low none = true
covers_gap low (some high) = leb_ℤ low high

abbrev is_convoy : SyncKind → Bool
is_convoy transfer = false
is_convoy convoy = true

-- `Synchronisation.__post_init__`
unfoldable pub check_synchronisation : Synchronisation → Result Synchronisation
check_synchronisation s = do
  require (not (str_eq s.first s.second)) validation_error
  require (not_negative s.min_gap) validation_error
  require (covers_gap s.min_gap s.max_gap) validation_error
  require (not (is_convoy s.kind) || is_some s.max_gap) validation_error
  ok s
