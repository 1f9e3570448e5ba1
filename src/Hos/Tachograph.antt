-- ===== src/Hos/Tachograph.antt =====
-- vrp/hos/tachograph.py: a recorded day, the checks that refuse a feed, and the fold into the state
-- that the planner starts from.
pub mod Duty
use osrm_microservice.Prelude.{
  ℕ, suc, ◌+◌, ◌-◌, ◌*◌, ◌≤◌, Bool, true, false, Option, none, some, List, [], ◌∷◌, ltb, leb, ◌||◌,
  ◌&&◌, if◌then◌else◌, String, str_eq, ℤ, pos, negsuc, leb_ℤ, ltb_ℤ, ◌-ℤ◌, Result, ok, err,
  value_error, ◌>>=◌, ◌>>◌, require, or_raise, not,
}
use osrm_microservice.Hos.Rules.{
  Activity, drive, work, break, rest, wait, DriverState, rested, HoursOfServiceRules, hour, advance,
  rules_for,
}
use osrm_microservice.Model.Stop.{is_given}
use osrm_microservice.Model.Vehicle.{Vehicle}

-- `activity` is the text of the feed.
pub record DutyRecord : Type 0 where
  pub activity : String
  pub start : ℤ
  pub end : ℤ

abbrev pub seconds : DutyRecord → ℤ
seconds e = e.end -ℤ e.start

-- `Activity(value)`
unfoldable pub activity_of : String → Option Activity
activity_of value =
    if str_eq value "DRIVE"
    then some drive
    else if str_eq value "WORK"
    then some work
    else if str_eq value "BREAK"
    then some break
    else if str_eq value "REST"
    then some rest
    else if str_eq value "WAIT"
    then some wait
    else none

is_known : Option Activity → Bool
is_known none = false
is_known (some a) = true

-- The tests on two neighbours.
follows : Option DutyRecord → DutyRecord → Bool
follows none entry = true
follows (some previous) entry =
    not (ltb_ℤ entry.start previous.start) && not (ltb_ℤ entry.start previous.end)

validate : Option DutyRecord → List DutyRecord → Result (Unit {0})
unfolding is_known follows
validate previous [] = ok tt
validate previous (entry ∷ entries) = do
  require (is_known (activity_of entry.activity)) value_error
  require (not (ltb_ℤ entry.end entry.start)) value_error
  require (follows previous entry) value_error
  validate (some entry) entries

-- `DAILY_REST`
unfoldable pub daily_rest_for : HoursOfServiceRules → Result ℤ
daily_rest_for r =
    if str_eq r.name "EU-561"
    then ok (pos (11 * hour))
    else if str_eq r.name "US-HOS"
    then ok (pos (10 * hour))
    else err value_error

-- A rest or break that is long enough ends the duty.
unfoldable pub ends_duty : ℤ → DutyRecord → Bool
ends_duty threshold e =
    (str_eq e.activity "REST" || str_eq e.activity "BREAK") && leb_ℤ threshold (seconds e)

-- One round of the loop of `read_duty`.
read_entry : ℤ → DriverState → DutyRecord → Result DriverState
read_entry threshold s e =
    if ends_duty threshold e
    then ok (record rested { week_drive_used = s.week_drive_used })
    else do activity ← or_raise (activity_of e.activity) value_error; advance s activity (seconds e)

fold_duty : ℤ → DriverState → List DutyRecord → Result DriverState
unfolding read_entry
fold_duty threshold s [] = ok s
fold_duty threshold s (e ∷ es) = do s' ← read_entry threshold s e; fold_duty threshold s' es

unfoldable pub read_duty : List DutyRecord → HoursOfServiceRules → Result DriverState
unfolding validate fold_duty
read_duty records r = do
  validate none records
  threshold ← daily_rest_for r
  fold_duty threshold rested records

-- `resume_from`: a vehicle whose rule set is missing or empty is refused.
unfoldable pub resume_from : Vehicle → List DutyRecord → Result Vehicle
resume_from v records = do
  name ← or_raise v.hos_rules value_error
  require (is_given name) value_error
  rules ← rules_for name
  state ← read_duty records rules
  ok (record v { initial_state = some state })
