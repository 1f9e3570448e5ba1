-- ===== src/Hos/Schedule/Road.antt =====
-- The driving of a whole route without a violation (vrp/hos/schedule.py), leg by leg.
use osrm_microservice.Prelude.{
  arith, ℕ, ◌+◌, ◌≤◌, ◌<◌, max, ◌≡◌, refl, sym, ◌∙◌, ap, subst, Bool, true, false, Option, none,
  some, List, [], ◌∷◌, if◌then◌else◌, String, ℤ, pos, negsuc, pos_part, ◌-ℤ◌, ltb_ℤ, Result, ok,
  value_error, or_raise, ok-injective, >>=-eq-ok, ◌>>=◌,
}
use osrm_microservice.Hos.Rules.{wait, work, DriverState, HoursOfServiceRules, advance}
use osrm_microservice.Hos.Schedule.{
  Leg, Shift, Violation, index_of, first_window_start, at_stop, drive_leg, schedule_stop,
  schedule_stops,
}
use osrm_microservice.Hos.Schedule.Driving.{Drove, drive_leg-Drove}
use osrm_microservice.Model.Stop.{StopSpec, Quantities}
use osrm_microservice.Model.Order.{Order}
use osrm_microservice.Model.Vehicle.{Vehicle, ends_at}
use osrm_microservice.Model.Matrix.{duration}
use osrm_microservice.Model.Problem.{Problem, location}
use osrm_microservice.Model.Plan.{Step}
use osrm_microservice.Model.Service.{delivery_or_pickup, service_time}

-- The seconds on the road, from a place past the stops of the orders to the end; a duration below
-- zero takes none.
abbrev pub road_time : Problem → String → ℕ → List Order → Result ℕ
road_time p home at [] = do
  end ← index_of p home
  taken ← duration p.matrix at end
  ok (pos_part taken)
road_time p home at (o ∷ os) = do
  stop ← or_raise (delivery_or_pickup o) value_error
  there ← index_of p stop.location_id
  taken ← duration p.matrix at there
  later ← road_time p home there os
  ok (pos_part taken + later)

module _ (r : HoursOfServiceRules) (has_block : 0 < r.drive_before_break) where
  pub leg-Drove :
      (travel clock : ℤ) (to : String) (load : Quantities) (s : DriverState) (leg : Leg)
      → drive_leg (some r) travel to load none clock s ≡ ok leg
      → Drove r (pos_part travel) clock s leg
  unfolding drive_leg
  leg-Drove (pos n) clock to load s leg h =
      let (leg', same, drove) = drive_leg-Drove r n to load clock s has_block in
      subst (Drove r n clock s) (ok-injective (sym same ∙ h)) drove
  leg-Drove (negsuc n) clock to load s leg h =
      let (leg', same, drove) = drive_leg-Drove r 0 to load clock s has_block in
      subst (Drove r 0 clock s) (ok-injective (sym same ∙ h)) drove

  -- A violation stays.
  leg-violation :
      (travel clock : ℤ) (to : String) (load : Quantities) (was : Option Violation)
      (s : DriverState) (leg : Leg)
      → drive_leg (some r) travel to load was clock s ≡ ok leg
      → leg.violation ≡ none
      → was ≡ none
  unfolding drive_leg
  leg-violation travel clock to load none s leg h clean = refl
  leg-violation travel clock to load (some v) s leg h clean =
      absurd (kept (ap (λ (x : Leg). x.violation) (ok-injective h) ∙ clean))
    where
      kept : some v ≡ none → ⊥
      kept e = cc

  -- Waiting and work drive nothing.
  waited-drive_used :
      (s s' : DriverState) (seconds : ℤ)
      → advance s wait seconds ≡ ok s'
      → s'.drive_used ≡ s.drive_used
  unfolding advance
  waited-drive_used s s' (pos n) h = ap (λ (x : DriverState). x.drive_used) (ok-injective (sym h))
  waited-drive_used s s' (negsuc n) h = cc

  worked-drive_used :
      (s s' : DriverState) (seconds : ℤ)
      → advance s work seconds ≡ ok s'
      → s'.drive_used ≡ s.drive_used
  unfolding advance
  worked-drive_used s s' (pos n) h = ap (λ (x : DriverState). x.drive_used) (ok-injective (sym h))
  worked-drive_used s s' (negsuc n) h = cc

  at_stop-drive_used :
      (s s' : DriverState) (arrival begin service : ℤ)
      → at_stop (some r) s arrival begin service ≡ ok s'
      → s'.drive_used ≡ s.drive_used
  unfolding at_stop
  at_stop-drive_used s s' arrival begin service h =
      let (w, e, h₁) =
        >>=-eq-ok (if ltb_ℤ arrival begin then advance s wait (begin -ℤ arrival) else ok s)
          (λ x. advance x work service) h in
      worked-drive_used w s' service h₁ ∙ stood (ltb_ℤ arrival begin) w e
    where
      stood :
          (waits : Bool) (w : DriverState)
          → (if waits then advance s wait (begin -ℤ arrival) else ok s) ≡ ok w
          → w.drive_used ≡ s.drive_used
      stood true w e = waited-drive_used s w (begin -ℤ arrival) e
      stood false w e = ap (λ (x : DriverState). x.drive_used) (ok-injective (sym e))

  module _ (p : Problem) (v : Vehicle) where
    -- What is found at a stop, and the leg to it.
    record Stopped (o : Order) (s s' : Shift) : Type 0 where
      stop : StopSpec
      there : ℕ
      taken : ℤ
      leg : Leg
      chosen : or_raise (delivery_or_pickup o) value_error ≡ ok stop
      placed : index_of p stop.location_id ≡ ok there
      timed : duration p.matrix s.at there ≡ ok taken
      drives :
          drive_leg (some r) taken stop.location_id s.on_board s.violation s.clock s.driver ≡ ok leg
      reached : s'.at ≡ there
      carried : s'.violation ≡ leg.violation
      same_drive : s'.driver.drive_used ≡ leg.driver.drive_used

    schedule_stop-Stopped :
        (o : Order) (s s' : Shift) (steps : List Step)
        → schedule_stop p v (some r) o s ≡ ok (steps, s')
        → Stopped o s s'
    unfolding schedule_stop
    schedule_stop-Stopped o s s' steps h =
        let (stop, e₁, h₁) = >>=-eq-ok (or_raise (delivery_or_pickup o) value_error) _ h in
        let (there, e₂, h₂) = >>=-eq-ok (index_of p stop.location_id) _ h₁ in
        let (taken, e₃, h₃) = >>=-eq-ok (duration p.matrix s.at there) _ h₂ in
        let (leg, e₄, h₄) =
          >>=-eq-ok
            (drive_leg (some r) taken stop.location_id s.on_board s.violation s.clock s.driver) _
            h₃ in
        let begin = first_window_start leg.clock stop.time_windows in
        let (l, e₅, h₅) = >>=-eq-ok (location p stop.location_id) _ h₄ in
        let (service, e₆, h₆) = >>=-eq-ok (or_raise (service_time o v l) value_error) _ h₅ in
        let (driver, e₇, h₇) =
          >>=-eq-ok (at_stop (some r) leg.driver leg.clock begin service) _ h₆ in
        let ends = ap (λ (x : List Step × Shift). x.1) (ok-injective h₇) in
        record {
          stop = stop;
          there = there;
          taken = taken;
          leg = leg;
          chosen = e₁;
          placed = e₂;
          timed = e₃;
          drives = e₄;
          reached = ap (λ (x : Shift). x.at) (sym ends);
          carried = ap (λ (x : Shift). x.violation) (sym ends);
          same_drive =
              ap (λ (x : Shift). x.driver.drive_used) (sym ends)
              ∙ at_stop-drive_used leg.driver driver leg.clock begin service e₇;
        }

    -- What the legs from one moment of the loop to the end of the route come to.
    pub record Road (os : List Order) (s : Shift) (leg : Leg) : Type 0 where
      pub seconds : ℕ
      pub road : road_time p (ends_at v) s.at os ≡ ok seconds
      pub clean : s.violation ≡ none
      pub driven : leg.driver.drive_used ≡ s.driver.drive_used + seconds
      pub most : leg.driver.drive_used ≤ max r.max_drive s.driver.drive_used

    -- The last leg, from where the loop ended.
    pub record Homeward (s : Shift) (leg : Leg) : Type 0 where
      pub end : ℕ
      pub taken : ℤ
      pub placed : index_of p (ends_at v) ≡ ok end
      pub timed : duration p.matrix s.at end ≡ ok taken
      pub drives :
          drive_leg (some r) taken (ends_at v) s.on_board s.violation s.clock s.driver ≡ ok leg
      pub lawful : leg.violation ≡ none

    Homeward-Road : (s : Shift) (leg : Leg) → Homeward s leg → Road [] s leg
    Homeward-Road s leg h =
        let clean =
          leg-violation h.taken s.clock (ends_at v) s.on_board s.violation s.driver leg h.drives
            h.lawful in
        let drove = leg-Drove h.taken s.clock (ends_at v) s.on_board s.driver leg (
          subst (λ x. drive_leg (some r) h.taken (ends_at v) s.on_board x s.clock s.driver ≡ ok leg)
            clean h.drives) in
        record {
          seconds = pos_part h.taken;
          road = rw (h.placed, h.timed) refl;
          clean = clean;
          driven = drove.driven h.lawful;
          most = drove.day_over;
        }

    stop-Road :
        (o : Order) (os : List Order) (s s₁ : Shift) (leg : Leg)
        → Stopped o s s₁
        → Road os s₁ leg
        → Road (o ∷ os) s leg
    stop-Road o os s s₁ leg h later =
        let lawful = sym h.carried ∙ later.clean in
        let clean =
          leg-violation h.taken s.clock h.stop.location_id s.on_board s.violation s.driver h.leg
            h.drives lawful in
        let drove = leg-Drove h.taken s.clock h.stop.location_id s.on_board s.driver h.leg (
          subst
            (λ x.
              drive_leg (some r) h.taken h.stop.location_id s.on_board x s.clock s.driver
              ≡ ok h.leg)
            clean h.drives) in
        record {
          seconds = pos_part h.taken + later.seconds;
          road =
              let rest =
                subst (λ x. road_time p (ends_at v) x os ≡ ok later.seconds) h.reached later.road in
              rw (h.chosen, h.placed, h.timed, rest) refl;
          clean = clean;
          driven = omega (arith, later.driven, h.same_drive, drove.driven lawful);
          most = omega (arith, later.most, h.same_drive, drove.day_over);
        }

    pub stops-Road :
        (os : List Order) (s s' : Shift) (steps : List Step) (leg : Leg)
        → schedule_stops p v (some r) os s ≡ ok (steps, s')
        → Homeward s' leg
        → Road os s leg
    unfolding schedule_stops
    stops-Road [] s s' steps leg h last = Homeward-Road s leg (
        subst (λ x. Homeward x leg) (ap (λ (x : List Step × Shift). x.1) (ok-injective (sym h)))
          last)
    stops-Road (o ∷ os) s s' steps leg h last =
        let ((first, s₁), e₁, h₁) = >>=-eq-ok (schedule_stop p v (some r) o s) _ h in
        let ((later, s₂), e₂, h₂) = >>=-eq-ok (schedule_stops p v (some r) os s₁) _ h₁ in
        let same = ap (λ (x : List Step × Shift). x.1) (ok-injective (sym h₂)) in
        stop-Road o os s s₁ leg (schedule_stop-Stopped o s s₁ first e₁)
          (stops-Road os s₁ s₂ later leg e₂ (subst (λ x. Homeward x leg) same last))
