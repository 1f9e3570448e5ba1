-- ===== src/Examples/Hours.antt =====
-- A European driver's day.
use osrm_microservice.Prelude.{
  ◌+◌, ◌-◌, ◌*◌, ◌≡◌, ◌↔◌, ◌⊎◌, min, true, some, none, refl, arith, ◌∷◌, List, [], pos, ◌-ℤ◌, ok,
}
use osrm_microservice.Hos.Rules.{
  drive, break, DriverState, Break, consume, advance, remaining_drive, drive_until_break, can_drive,
  required_break, eu_561, hour, anywhere_on_arc,
}
use osrm_microservice.Hos.Rules.Limits.{
  IsWithin, can_drive_iff, required_break_restores, stopped_because,
}
use osrm_microservice.Hos.Tachograph.{DutyRecord, read_duty, activity_of, ends_duty, daily_rest_for}
use osrm_microservice.Hos.Tachograph.Duty.{open_duty, total_driven, total_time, read_duty_lem}
use osrm_microservice.Hos.Schedule.{Leg, drive_leg}
use osrm_microservice.Hos.Schedule.Driving.{Drove, drive_leg-Drove}

-- After a whole block of driving.
abbrev tired : DriverState
tired = record {
  drive_used = 16200;
  duty_used = 20000;
  since_last_break = 16200;
  week_drive_used = 90000;
}

abbrev art_7 : Break
art_7 = record { duration = 45 * 60; rule_ref = "EC-561/2006 Art.7"; placement = anywhere_on_arc }

can_drive_iff_example :
    (can_drive eu_561 tired (pos 600) ≡ true) ↔ IsWithin eu_561 (consume tired drive 600)
can_drive_iff_example = can_drive_iff eu_561 tired 600 (omega arith)

required_at_once : required_break eu_561 tired ≡ some art_7
unfolding required_break
required_at_once = refl

nothing_left : drive_until_break eu_561 tired ≡ 0
unfolding drive_until_break
nothing_left = refl

required_break_restores_example :
    (s : DriverState) × (advance tired break (pos art_7.duration) ≡ ok s)
    × (drive_until_break eu_561 s
        ≡ min
            (min (eu_561.max_drive - 16200) (eu_561.max_duty - (20000 + eu_561.break_duration)))
            eu_561.drive_before_break)
    × (drive_until_break eu_561 tired ≡ 0)
    × (s.drive_used ≡ 16200)
    × (s.week_drive_used ≡ 90000)
required_break_restores_example = required_break_restores eu_561 tired art_7 required_at_once

stopped_because_example :
    ((b : Break) × (required_break eu_561 tired ≡ some b)) ⊎ (remaining_drive eu_561 tired ≡ 0)
stopped_because_example = stopped_because eu_561 tired (omega arith) nothing_left

-- A day of driving, a night's rest, and a morning.
abbrev feed : List DutyRecord
feed =
    record { activity = "DRIVE"; start = pos 0; end = pos 14400 }
    ∷ record { activity = "REST"; start = pos 14400; end = pos 57600 }
    ∷ record { activity = "WORK"; start = pos 57600; end = pos 58500 }
    ∷ record { activity = "DRIVE"; start = pos 58500; end = pos 62100 }
    ∷ []

abbrev morning : DriverState
morning = record {
  drive_used = 3600;
  duty_used = 4500;
  since_last_break = 3600;
  week_drive_used = 18000;
}

feed_read : read_duty feed eu_561 ≡ ok morning
unfolding read_duty daily_rest_for activity_of ends_duty advance ◌-ℤ◌
feed_read = refl

eleven_hours : daily_rest_for eu_561 ≡ ok (pos (11 * hour))
unfolding daily_rest_for
eleven_hours = refl

read_duty_lem_example :
    (morning.drive_used ≡ total_driven (open_duty (pos (11 * hour)) feed))
    × (morning.duty_used ≡ total_time (open_duty (pos (11 * hour)) feed))
    × (morning.week_drive_used ≡ total_driven feed)
read_duty_lem_example =
    read_duty_lem feed eu_561 {s = morning} (pos (11 * hour)) feed_read eleven_hours

drive_leg-Drove_example :
    (leg : Leg) × (drive_leg (some eu_561) (pos 9000) "depot" [] none (pos 50000) tired ≡ ok leg)
    × Drove eu_561 9000 (pos 50000) tired leg
drive_leg-Drove_example = drive_leg-Drove eu_561 9000 "depot" [] (pos 50000) tired (omega arith)
