-- ===== src/Hos/Rules/Limits.antt =====
-- The guards of vrp/hos/rules.py against the limits of the rule set.
use osrm_microservice.Prelude.{
  ℕ, ◌+◌, ◌-◌, ◌≤◌, ◌<◌, ◌≡◌, ◌↔◌, ◌⊎◌, inl, inr, Bool-cases, ltb, leb, ◌||◌, refl, arith, min,
  true, some, pos, ok,
}
use osrm_microservice.Hos.Rules.{
  anywhere_on_arc, drive, break, DriverState, HoursOfServiceRules, Break, consume, advance,
  remaining_drive, drive_until_break, can_drive, required_break,
}

-- The three accumulators against the three limits.
pub record IsWithin (r : HoursOfServiceRules) (s : DriverState) : Type 0 where
  pub driving : s.drive_used ≤ r.max_drive
  pub duty : s.duty_used ≤ r.max_duty
  pub block : s.since_last_break ≤ r.drive_before_break

-- A positive time may be driven without stopping exactly if driving it leaves the driver within the
-- limits on daily driving, on duty and on driving since the last break.
pub can_drive_iff :
    (r : HoursOfServiceRules) (s : DriverState) (n : ℕ)
    → 0 < n
    → (can_drive r s (pos n) ≡ true) ↔ IsWithin r (consume s drive n)
unfolding can_drive consume
can_drive_iff r s n h = (λ yes_drive. ground arith, λ within. ground arith)

-- Where a break is required, taking it for its whole duration and no longer restores the driving
-- block: the driver may drive again for as long as the daily driving, the duty that is left after
-- the break and the block allow, and neither daily nor weekly driving has changed.
pub required_break_restores :
    (r : HoursOfServiceRules) (s : DriverState) (b : Break)
    → required_break r s ≡ some b
    → (s' : DriverState) × (advance s break (pos b.duration) ≡ ok s')
      × (drive_until_break r s'
          ≡ min
              (min (r.max_drive - s.drive_used) (r.max_duty - (s.duty_used + r.break_duration)))
              r.drive_before_break)
      × (drive_until_break r s ≡ 0)
      × (s'.drive_used ≡ s.drive_used)
      × (s'.week_drive_used ≡ s.week_drive_used)
unfolding required_break advance drive_until_break
required_break_restores r s b h =
    (consume s break b.duration, refl, ground arith, ground arith, ground arith, ground arith)

-- For a rule set whose driving block has a length, and a driver with no driving left before a break
-- falls due: either a break is required, or the daily driving or the duty leaves no driving at all.
pub stopped_because :
    (r : HoursOfServiceRules) (s : DriverState)
    → 0 < r.drive_before_break
    → drive_until_break r s ≡ 0
    → ((b : Break) × (required_break r s ≡ some b)) ⊎ (remaining_drive r s ≡ 0)
unfolding drive_until_break required_break
stopped_because r s h e = elim (Bool-cases (ltb s.since_last_break r.drive_before_break)) [
  | inl early ↦ inr (ground arith)
  | inr due ↦ elim (Bool-cases (leb r.max_drive s.drive_used || leb r.max_duty s.duty_used)) [
    | inl spent ↦ inr (ground arith)
    | inr left ↦ inl (
      record {
        duration = r.break_duration;
        rule_ref = r.break_rule_ref;
        placement = anywhere_on_arc;
      },
      rw (due, left),
    )
  ]
]
