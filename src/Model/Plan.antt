-- ===== src/Model/Plan.antt =====
-- `Step`, `Route` and `Solution` of vrp/model.py.
use osrm_microservice.Prelude.{
  Bool, true, false, ◌||◌, Option, List, String, ℤ, ◌-ℤ◌, Result, ok, validation_error, require,
  ◌>>◌, not, none, some, [], ◌∷◌, if◌then◌else◌,
}
use osrm_microservice.Model.Stop.{Quantities, is_given}
use osrm_microservice.Model.Order.{is_some}
use osrm_microservice.Hos.Rules.{Placement}

pub data StepType : Type 0 where
  start pickup delivery break reload charge end : StepType

pub record Step : Type 0 where
  pub type : StepType
  pub location_id : String
  pub arrival : ℤ
  pub start_service : ℤ
  pub departure : ℤ
  pub order_id : Option String
  pub load_after : Quantities
  pub rule_ref : Option String
  pub placement : Option Placement
  pub soc_after_ppt : Option ℤ

abbrev pub is_break : StepType → Bool
is_break StepType.break = true
is_break _ = false

abbrev pub is_delivery : StepType → Bool
is_delivery StepType.delivery = true
is_delivery _ = false

abbrev pub is_pickup : StepType → Bool
is_pickup StepType.pickup = true
is_pickup _ = false

abbrev pub is_charge : StepType → Bool
is_charge StepType.charge = true
is_charge _ = false

abbrev pub is_reload : StepType → Bool
is_reload StepType.reload = true
is_reload _ = false

abbrev pub is_start : StepType → Bool
is_start StepType.start = true
is_start _ = false

-- `Step.__post_init__`
unfoldable pub check_step : Step → Result Step
check_step s = do require (not (is_some s.rule_ref) || is_break s.type) validation_error; ok s

unfoldable pub waiting : Step → ℤ
waiting s = s.start_service -ℤ s.arrival

-- `if step.order_id`: an empty text is no order.
abbrev pub named : Option String → List String
named none = []
named (some i) = if is_given i then i ∷ [] else []

pub record Route : Type 0 where
  pub vehicle_id : String
  pub steps : List Step

-- An entry of `unassigned` is read by its order alone; the solver's own record is not read.
pub record Solution : Type 0 where
  pub problem_id : String
  pub routes : List Route
  pub unassigned : List String
  pub objective_breakdown : List (String × ℤ)
  pub status : String
  pub degraded : Option String
