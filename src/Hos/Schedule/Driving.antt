-- ===== src/Hos/Schedule/Driving.antt =====
-- The driving of one leg: `_drive` of vrp/hos/schedule.py under a rule set.
use osrm_microservice.Prelude.{
  ℕ, zero, suc, ◌+◌, ◌-◌, ◌*◌, ◌<◌, ◌≤◌, ◌≡◌, ◌⊎◌, inl, inr, refl, ◌∙◌, arith, min, max,
  Option-cases, none, some, List, [], ◌∷◌, String, ℤ, pos, ◌+ℤ◌, ◌-ℤ◌, int_laws, ok,
}
use osrm_microservice.Hos.Rules.{
  drive, break, Break, DriverState, HoursOfServiceRules, consume, drive_until_break, required_break,
}
use osrm_microservice.Hos.Schedule.{
  Violation, duty_exhausted, Leg, break_step, drive_loop, drive_rounds, drive_leg,
}
use osrm_microservice.Model.Stop.{Quantities}
use osrm_microservice.Model.Plan.{Step}

-- The seconds that the inserted steps take.
pub break_time : List Step → ℤ
break_time [] = pos 0
break_time (s ∷ ss) = (s.departure -ℤ s.arrival) +ℤ break_time ss

pub record Drove (r : HoursOfServiceRules) (travel : ℕ) (clock : ℤ) (s : DriverState) (leg : Leg)
    : Type 0 where
  pub day : s.drive_used ≤ r.max_drive → leg.driver.drive_used ≤ r.max_drive
  pub day_over : leg.driver.drive_used ≤ max r.max_drive s.drive_used
  pub block :
      s.since_last_break ≤ r.drive_before_break → leg.driver.since_last_break ≤ r.drive_before_break
  pub clocked : leg.violation ≡ none → leg.clock ≡ clock +ℤ pos travel +ℤ break_time leg.breaks
  pub on_duty :
      leg.violation ≡ none
      → pos leg.driver.duty_used ≡ pos s.duty_used +ℤ pos travel +ℤ break_time leg.breaks
  pub driven : leg.violation ≡ none → leg.driver.drive_used ≡ s.drive_used + travel
  pub in_window :
      leg.violation ≡ none
      → (0 < travel) ⊎ (s.duty_used ≤ r.max_duty)
      → leg.driver.duty_used ≤ r.max_duty

number_cases : (n : ℕ) → (n ≡ 0) ⊎ ((k : ℕ) × (n ≡ suc k))
number_cases zero = inl refl
number_cases (suc k) = inr (k, refl)

module _ (r : HoursOfServiceRules) where
  Drove-done :
      (clock : ℤ) (s : DriverState)
      → Drove r 0 clock s (record { clock = clock; driver = s; violation = none; breaks = [] })
  unfolding break_time
  Drove-done clock s = record {
    day = λ h. h;
    day_over = omega arith;
    block = λ h. h;
    clocked = λ _. omega int_laws;
    on_duty = λ _. omega int_laws;
    driven = λ _. omega arith;
    in_window = λ _ h. elim h [ inl bad ↦ absurd (omega arith) | inr le ↦ le ];
  }

  Drove-chunk :
      (chunk n : ℕ) (clock : ℤ) (s : DriverState) (leg : Leg)
      → chunk ≤ drive_until_break r s
      → 0 < chunk
      → chunk ≤ n
      → Drove r (n - chunk) (clock +ℤ pos chunk) (consume s drive chunk) leg
      → Drove r n clock s leg
  unfolding consume drive_until_break
  Drove-chunk chunk n clock s leg allowed some_of fits d = record {
    day = λ h. d.day (omega arith);
    day_over = omega (arith, d.day_over);
    block = λ h. d.block (omega arith);
    clocked = λ e. d.clocked e ∙ omega int_laws;
    on_duty = λ e. d.on_duty e ∙ omega int_laws;
    driven = λ e. omega (arith, d.driven e);
    in_window = λ e _. d.in_window e (inr (omega arith));
  }

  Drove-break :
      (n : ℕ) (clock : ℤ) (s : DriverState) (b : Break) (to : String) (load : Quantities)
      (leg : Leg)
      → 0 < n
      → Drove r n (clock +ℤ pos b.duration) (consume s break b.duration) leg
      → Drove r n clock s (record leg { breaks = break_step b clock to load ∷ leg.breaks })
  unfolding consume break_step break_time
  Drove-break n clock s b to load leg some_left d = record {
    day = λ h. d.day h;
    day_over = d.day_over;
    block = λ h. d.block (omega arith);
    clocked = λ e. d.clocked e ∙ omega int_laws;
    on_duty = λ e. d.on_duty e ∙ omega int_laws;
    driven = λ e. d.driven e;
    in_window = λ e _. d.in_window e (inl some_left);
  }

  Drove-exhausted :
      (n : ℕ) (clock : ℤ) (s : DriverState) (v : Violation)
      → Drove r n clock s
          (record { clock = clock +ℤ pos n; driver = s; violation = some v; breaks = [] })
  Drove-exhausted n clock s v = record {
    day = λ h. h;
    day_over = omega arith;
    block = λ h. h;
    clocked = λ e. cc;
    on_duty = λ e. cc;
    driven = λ e. cc;
    in_window = λ e _. cc;
  }

  break_due :
      (s : DriverState) (b : Break)
      → required_break r s ≡ some b
      → r.drive_before_break ≤ s.since_last_break
  unfolding required_break
  break_due s b e = ground arith

  -- Rounds enough for the leg: one less where the driver has just had a break.
  abbrev Enough : ℕ → ℕ → DriverState → Type 0
  Enough fuel n s = (2 * n + 2 ≤ fuel) ⊎ ((2 * n + 1 ≤ fuel) × (s.since_last_break ≡ 0))

  rounds_left : (fuel n : ℕ) (s : DriverState) → Enough (suc fuel) (suc n) s → 2 * n + 2 ≤ fuel
  rounds_left fuel n s (inl le) = omega arith
  rounds_left fuel n s (inr le) = omega arith

  after_break :
      (fuel n : ℕ) (s : DriverState) (b : Break)
      → required_break r s ≡ some b
      → 0 < r.drive_before_break
      → Enough (suc fuel) (suc n) s
      → Enough fuel (suc n) (consume s break b.duration)
  unfolding consume
  after_break fuel n s b due h (inl le) = inr (omega arith, refl)
  after_break fuel n s b due h (inr le) = absurd (omega (arith, break_due s b due))

  loop_chunk :
      (fuel n k : ℕ) (to : String) (load : Quantities) (clock : ℤ) (s : DriverState) (leg : Leg)
      → drive_until_break r s ≡ suc k
      → drive_loop fuel r to load
          (suc n - min (suc k) (suc n))
          (clock +ℤ pos (min (suc k) (suc n)))
          (consume s drive (min (suc k) (suc n)))
        ≡ some leg
      → drive_loop (suc fuel) r to load (suc n) clock s ≡ some leg
  unfolding drive_loop
  loop_chunk fuel n k to load clock s leg going same = rw (going, drive_loop) same

  chunk_rounds : (fuel n k : ℕ) → 2 * n + 2 ≤ fuel → 2 * (suc n - min (suc k) (suc n)) + 2 ≤ fuel
  chunk_rounds fuel n k h = omega arith

  abbrev Drives : ℕ → ℕ → String → Quantities → ℤ → DriverState → Type 0
  Drives fuel n to load clock s =
      (leg : Leg) × (drive_loop fuel r to load n clock s ≡ some leg) × Drove r n clock s leg

  drive_loop-Drove :
      (fuel n : ℕ) (to : String) (load : Quantities) (clock : ℤ) (s : DriverState)
      → 0 < r.drive_before_break
      → Enough fuel n s
      → Drives fuel n to load clock s
  unfolding drive_loop consume
  drive_loop-Drove zero n to load clock s h enough = elim enough [
    | inl le ↦ absurd (omega arith)
    | inr le ↦ absurd (omega arith)
  ]
  drive_loop-Drove (suc fuel) zero to load clock s h enough = (_, refl, Drove-done clock s)
  drive_loop-Drove (suc fuel) (suc n) to load clock s h enough =
      elim (number_cases (drive_until_break r s)) [
        | inl stopped ↦ elim (Option-cases (required_break r s)) [
          | inl spent ↦ (
            record {
              clock = clock +ℤ pos (suc n);
              driver = s;
              violation = some (duty_exhausted r.name (suc n) to);
              breaks = [];
            },
            rw (stopped, drive_loop, spent),
            Drove-exhausted (suc n) clock s (duty_exhausted r.name (suc n) to),
          )
          | inr (b, due) ↦
              let (leg, same, drove) =
                drive_loop-Drove fuel (suc n) to load (clock +ℤ pos b.duration)
                  (consume s break b.duration) h (after_break fuel n s b due h enough) in
              (
                record leg { breaks = break_step b clock to load ∷ leg.breaks },
                rw (stopped, drive_loop, due, same),
                Drove-break (suc n) clock s b to load leg (omega arith) drove,
              )
        ]
        | inr (k, going) ↦
            let chunk = min (suc k) (suc n) in
            let (leg, same, drove) =
              drive_loop-Drove fuel (suc n - chunk) to load (clock +ℤ pos chunk)
                (consume s drive chunk) h
                (inl (chunk_rounds fuel n k (rounds_left fuel n s enough))) in
            (
              leg,
              loop_chunk fuel n k to load clock s leg going same,
              Drove-chunk chunk (suc n) clock s leg (omega (arith, going)) (omega arith)
                  (omega arith) drove,
            )
      ]

-- For a rule set whose driving block has a length, and a leg that is driven while there is no
-- violation: the loop of `_drive` ends; the driver's day stays within the daily driving limit and the
-- block within its limit if they were before, and a day that was beyond the limit grows no longer; and
-- unless the duty is found exhausted, the clock and
-- the duty have advanced by the leg and the inserted breaks, the driving by the leg alone, and the
-- leg, if it took any time, was finished within the duty.
pub drive_leg-Drove :
    (r : HoursOfServiceRules) (travel : ℕ) (to : String) (load : Quantities) (clock : ℤ)
    (s : DriverState)
    → 0 < r.drive_before_break
    → (leg : Leg) × (drive_leg (some r) (pos travel) to load none clock s ≡ ok leg)
      × Drove r travel clock s leg
unfolding drive_leg
drive_leg-Drove r travel to load clock s h =
    let (leg, same, drove) =
      drive_loop-Drove r (drive_rounds travel) travel to load clock s h (inl (omega arith)) in
    (leg, rw same, drove)
