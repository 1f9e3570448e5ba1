-- ===== src/Hos/Rules.antt =====
-- vrp/hos/rules.py: a driver's consumed hours, the limits of a rule set, and what an activity does.
-- Hours that are consumed and limits are not negative, so `max(0, a - b)` is `a - b` on ℕ.
pub mod Limits
use osrm_microservice.Prelude.{
  ℕ, suc, ◌+◌, ◌-◌, ◌*◌, ◌≤◌, min, Bool, true, false, Option, none, some, List, [], ◌∷◌, ltb, leb,
  ◌||◌, if◌then◌else◌, String, str_eq, ℤ, pos, negsuc, leb_ℤ, Result, ok, err, value_error,
}

pub data Activity : Type 0 where
  drive work break rest wait : Activity

pub data Placement : Type 0 where
  anywhere_on_arc at_customer at_facility : Placement

pub record DriverState : Type 0 where
  pub drive_used : ℕ
  pub duty_used : ℕ
  pub since_last_break : ℕ
  pub week_drive_used : ℕ

-- `DriverState()`
abbrev pub rested : DriverState
rested = record { drive_used = 0; duty_used = 0; since_last_break = 0; week_drive_used = 0 }

pub record Break : Type 0 where
  pub duration : ℕ
  pub rule_ref : String
  pub placement : Placement

pub record HoursOfServiceRules : Type 0 where
  pub name : String
  pub max_drive : ℕ
  pub max_duty : ℕ
  pub drive_before_break : ℕ
  pub break_duration : ℕ
  pub break_rule_ref : String

unfoldable pub init_state : Option DriverState → DriverState
init_state none = rested
init_state (some carry_over) = carry_over

-- What `seconds` of an activity add. The guard on negative seconds stands in `advance`.
unfoldable pub consume : DriverState → Activity → ℕ → DriverState
consume s drive seconds = record s {
  drive_used = s.drive_used + seconds;
  duty_used = s.duty_used + seconds;
  since_last_break = s.since_last_break + seconds;
  week_drive_used = s.week_drive_used + seconds;
}
consume s break seconds = record s { duty_used = s.duty_used + seconds; since_last_break = 0 }
consume s rest seconds = record s { duty_used = s.duty_used + seconds; since_last_break = 0 }
consume s work seconds = record s { duty_used = s.duty_used + seconds }
consume s wait seconds = record s { duty_used = s.duty_used + seconds }

unfoldable pub advance : DriverState → Activity → ℤ → Result DriverState
unfolding consume
advance s activity (negsuc n) = err value_error
advance s activity (pos seconds) = ok (consume s activity seconds)

module _ (r : HoursOfServiceRules) where
  unfoldable pub remaining_drive : DriverState → ℕ
  remaining_drive s = min (r.max_drive - s.drive_used) (r.max_duty - s.duty_used)

  unfoldable pub drive_until_break : DriverState → ℕ
  unfolding remaining_drive
  drive_until_break s = min (remaining_drive s) (r.drive_before_break - s.since_last_break)

  unfoldable pub can_drive : DriverState → ℤ → Bool
  unfolding drive_until_break
  can_drive s seconds = leb_ℤ seconds (pos (drive_until_break s))

  unfoldable pub required_break : DriverState → Option Break
  required_break s =
      if ltb s.since_last_break r.drive_before_break
      then none
      else if leb r.max_drive s.drive_used || leb r.max_duty s.duty_used
      then none
      else some (record {
        duration = r.break_duration;
        rule_ref = r.break_rule_ref;
        placement = anywhere_on_arc;
      })

abbrev pub hour : ℕ
hour = 3600

-- `int(4.5 * HOUR)` is 16200.
abbrev pub eu_561 : HoursOfServiceRules
eu_561 = record {
  name = "EU-561";
  max_drive = 9 * hour;
  max_duty = 13 * hour;
  drive_before_break = 16200;
  break_duration = 45 * 60;
  break_rule_ref = "EC-561/2006 Art.7";
}

abbrev pub us_hos : HoursOfServiceRules
us_hos = record {
  name = "US-HOS";
  max_drive = 11 * hour;
  max_duty = 14 * hour;
  drive_before_break = 8 * hour;
  break_duration = 30 * 60;
  break_rule_ref = "49 CFR 395.3(a)(3)(ii)";
}

unfoldable pub rules_for : String → Result HoursOfServiceRules
rules_for name =
    if str_eq name "EU-561"
    then ok eu_561
    else if str_eq name "US-HOS"
    then ok us_hos
    else err value_error
