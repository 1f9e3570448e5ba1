-- ===== src/Evaluator/Timeline/Chains.antt =====
-- The chains of results in `build_timeline` of vrp/evaluator.py, cut at each of their reads.
use osrm_microservice.Prelude.{
  ℕ, ◌≡◌, refl, sym, ap, ◌∙◌, subst, arith, Bool, true, false, Bool-cases, inl, inr, Option, none,
  some, List, [], ◌∷◌, ◌++◌, if◌then◌else◌, String, str_eq, eq_iff, ℤ, ◌+ℤ◌, Result, ok, err,
  value_error, not_implemented, or_raise, given_or, map_result, ok-injective, >>=-eq-ok, ◌>>=◌,
}
use osrm_microservice.Model.Window.{TimeWindow}
use osrm_microservice.Model.Stop.{Location, StopSpec}
use osrm_microservice.Model.Order.{Order, is_shipment}
use osrm_microservice.Model.Vehicle.{Vehicle, ends_at}
use osrm_microservice.Model.Matrix.{distance}
use osrm_microservice.Model.Problem.{
  Problem, location, find_location, find_order, order, vehicle, position,
}
use osrm_microservice.Model.Plan.{Step, StepType}
use osrm_microservice.Model.Travel.{travel_between}
use osrm_microservice.Model.Service.{delivery_or_pickup, service_time}
use osrm_microservice.Evaluator.Load.{initial_load}
use osrm_microservice.Evaluator.Timeline.{
  Progress, ChargeStop, Reading, reading, served, stop_of, drained, serve, serve_all, start_step,
  end_step, build_timeline, initial_soc,
}

find_location-id :
    (ls : List Location) (i : String) (l : Location) → find_location ls i ≡ ok l → l.id ≡ i
unfolding find_location
find_location-id [] i l h = cc
find_location-id (k ∷ ks) i l h = elim (Bool-cases (str_eq k.id i)) [
  | inl same ↦
      ap (λ (x : Location). x.id) (sym (ok-injective (rw same at h))) ∙ (eq_iff k.id i).0 same
  | inr other ↦ find_location-id ks i l (rw other at h)
]

pub location-id : (p : Problem) (i : String) (l : Location) → location p i ≡ ok l → l.id ≡ i
unfolding location
location-id p i l h = find_location-id p.locations i l h

find_order-id : (os : List Order) (i : String) (o : Order) → find_order os i ≡ ok o → o.id ≡ i
unfolding find_order
find_order-id [] i o h = cc
find_order-id (k ∷ ks) i o h = elim (Bool-cases (str_eq k.id i)) [
  | inl same ↦ ap (λ (x : Order). x.id) (sym (ok-injective (rw same at h))) ∙ (eq_iff k.id i).0 same
  | inr other ↦ find_order-id ks i o (rw other at h)
]

pub order-id : (p : Problem) (i : String) (o : Order) → order p i ≡ ok o → o.id ≡ i
unfolding order
order-id p i o h = find_order-id p.orders i o h

pub pair_parts {ℓ κ} : {A : Type ℓ} {B : Type κ} {x y : A × B} → x ≡ y → (x.0 ≡ y.0) × (x.1 ≡ y.1)
pair_parts e = (ap (λ z. z.0) e, ap (λ z. z.1) e)

abbrev place_and_windows : StopSpec → Result (String × List TimeWindow)
place_and_windows s = ok (s.location_id, s.time_windows)

split_stop :
    (b : Bool) (d : Option StopSpec) (i : String) (ws : List TimeWindow)
    → (if b then err not_implemented else (or_raise d value_error >>= place_and_windows))
      ≡ ok (i, ws)
    → (stop : StopSpec) × (d ≡ some stop) × (i ≡ stop.location_id) × (ws ≡ stop.time_windows)
split_stop true d i ws h = cc
split_stop false none i ws h = cc
split_stop false (some stop) i ws h = (stop, refl, ground arith, ground arith)

-- The chain of `reading`, cut at each of its reads.
module _ (p : Problem) (v : Vehicle) (o : Order) (s : Progress) where
  abbrev after_distance : Location → List TimeWindow → ℤ → ℤ → ℤ → Result Reading
  after_distance l ws service taken metres = do
    soc ← drained v s.soc metres
    ok (record { place = l; windows = ws; service = service; taken = taken; soc = soc })

  abbrev after_travel : Location → List TimeWindow → ℤ → ℤ → Result Reading
  after_travel l ws service taken =
      distance p.matrix s.at (position l) >>= after_distance l ws service taken

  abbrev after_service : Location → List TimeWindow → ℤ → Result Reading
  after_service l ws service =
      travel_between p s.at (position l) s.clock >>= after_travel l ws service

  abbrev after_location : List TimeWindow → Location → Result Reading
  after_location ws l = or_raise (service_time o v l) value_error >>= after_service l ws

  abbrev after_stop : String × List TimeWindow → Result Reading
  after_stop (i, ws) = location p i >>= after_location ws

  -- What a reading has found.
  pub record Found (r : Reading) : Type 0 where
    pub stop : StopSpec
    pub stops : delivery_or_pickup o ≡ some stop
    pub windows : r.windows ≡ stop.time_windows
    pub place : location p stop.location_id ≡ ok r.place
    pub service : or_raise (service_time o v r.place) value_error ≡ ok r.service
    pub taken : travel_between p s.at (position r.place) s.clock ≡ ok r.taken
    pub metres : ℤ
    pub measured : distance p.matrix s.at (position r.place) ≡ ok metres
    pub drains : drained v s.soc metres ≡ ok r.soc

  stop_of-stop :
      (i : String) (ws : List TimeWindow)
      → stop_of o ≡ ok (i, ws)
      → (stop : StopSpec) × (delivery_or_pickup o ≡ some stop)
        × (i ≡ stop.location_id)
        × (ws ≡ stop.time_windows)
  unfolding stop_of
  stop_of-stop i ws h = split_stop (is_shipment o.kind) (delivery_or_pickup o) i ws h

  Found-intro :
      (r : Reading) (stop : StopSpec) (i : String) (ws : List TimeWindow) (l : Location)
      (service taken metres : ℤ) (soc : Option ℤ)
      → delivery_or_pickup o ≡ some stop
      → i ≡ stop.location_id
      → ws ≡ stop.time_windows
      → location p i ≡ ok l
      → or_raise (service_time o v l) value_error ≡ ok service
      → travel_between p s.at (position l) s.clock ≡ ok taken
      → distance p.matrix s.at (position l) ≡ ok metres
      → drained v s.soc metres ≡ ok soc
      → record { place = l; windows = ws; service = service; taken = taken; soc = soc } ≡ r
      → Found r
  Found-intro r stop i ws l service taken metres soc is_stop at when found serves drives measures
        drains e =
      subst Found e (record {
        stop = stop;
        stops = is_stop;
        windows = when;
        place = subst (λ x. location p x ≡ ok l) at found;
        service = serves;
        taken = drives;
        metres = metres;
        measured = measures;
        drains = drains;
      })

  abbrev after_drain : Location → List TimeWindow → ℤ → ℤ → Option ℤ → Result Reading
  after_drain l ws service taken soc =
      ok (record { place = l; windows = ws; service = service; taken = taken; soc = soc })

  pub reading-Found : (r : Reading) → reading p v o s ≡ ok r → Found r
  unfolding reading
  reading-Found r h =
      let ((i, ws), e₁, h₁) = >>=-eq-ok (stop_of o) after_stop h in
      let (l, e₂, h₂) = >>=-eq-ok (location p i) (after_location ws) h₁ in
      let (service, e₃, h₃) =
        >>=-eq-ok (or_raise (service_time o v l) value_error) (after_service l ws) h₂ in
      let (taken, e₄, h₄) =
        >>=-eq-ok (travel_between p s.at (position l) s.clock) (after_travel l ws service) h₃ in
      let (metres, e₅, h₅) =
        >>=-eq-ok (distance p.matrix s.at (position l)) (after_distance l ws service taken) h₄ in
      let (soc, e₆, h₆) = >>=-eq-ok (drained v s.soc metres) (after_drain l ws service taken) h₅ in
      let (stop, is_stop, at, when) = stop_of-stop i ws e₁ in
      Found-intro r stop i ws l service taken metres soc is_stop at when e₂ e₃ e₄ e₅ e₆
        (ok-injective h₆)

module _ (p : Problem) where
  pub serve-reading :
      (v : Vehicle) (o : Order) (s : Progress) (x : Step × Progress)
      → serve p v o s ≡ ok x
      → (r : Reading) × (reading p v o s ≡ ok r) × (served o s r ≡ x)
  unfolding serve
  serve-reading v o s x h =
      let (r, e, same) = >>=-eq-ok (reading p v o s) (λ r. ok (served o s r)) h in
      (r, e, ok-injective same)

  -- The chain of `end_step`.
  abbrev pub end_at : Progress → Location → ℤ → Option ℤ → Result Step
  end_at s l taken soc = ok (record {
    type = StepType.end;
    location_id = l.id;
    arrival = s.clock +ℤ taken;
    start_service = s.clock +ℤ taken;
    departure = s.clock +ℤ taken;
    order_id = none;
    load_after = s.on_board;
    rule_ref = none;
    placement = none;
    soc_after_ppt = soc;
  })

  abbrev end_metres : Vehicle → Progress → Location → ℤ → ℤ → Result Step
  end_metres v s l taken metres = drained v s.soc metres >>= end_at s l taken

  abbrev end_travel : Vehicle → Progress → Location → ℤ → Result Step
  end_travel v s l taken = distance p.matrix s.at (position l) >>= end_metres v s l taken

  abbrev end_place : Vehicle → Progress → Location → Result Step
  end_place v s l = travel_between p s.at (position l) s.clock >>= end_travel v s l

  -- What the last step has found.
  pub end_step-found :
      (v : Vehicle) (s : Progress) (step : Step)
      → end_step p v s ≡ ok step
      → (l : Location) × (taken metres : ℤ) × (soc : Option ℤ) × (location p (ends_at v) ≡ ok l)
        × (travel_between p s.at (position l) s.clock ≡ ok taken)
        × (distance p.matrix s.at (position l) ≡ ok metres)
        × (drained v s.soc metres ≡ ok soc)
        × (end_at s l taken soc ≡ ok step)
  unfolding end_step
  end_step-found v s step h =
      let (l, e₁, h₁) = >>=-eq-ok (location p (ends_at v)) (end_place v s) h in
      let (taken, e₂, h₂) =
        >>=-eq-ok (travel_between p s.at (position l) s.clock) (end_travel v s l) h₁ in
      let (metres, e₃, h₃) =
        >>=-eq-ok (distance p.matrix s.at (position l)) (end_metres v s l taken) h₂ in
      let (soc, e₄, h₄) = >>=-eq-ok (drained v s.soc metres) (end_at s l taken) h₃ in
      (l, taken, metres, soc, e₁, e₂, e₃, e₄, h₄)

-- The start of a route.
abbrev pub at_start : Problem → Vehicle → List Order → Option ℤ → Location → Progress
at_start p v os start l = record {
  clock = given_or start v.shift.start;
  at = position l;
  soc = initial_soc v;
  on_board = initial_load os;
}

abbrev with_ends : Location → Progress → List Step → Step → Result (List Step)
with_ends l s steps last = ok (start_step l.id s ∷ steps ++ last ∷ [])

abbrev then_end :
    Problem → Vehicle → Location → Progress → List Step × Progress → Result (List Step)
then_end p v l s (steps, s') = end_step p v s' >>= with_ends l s steps

abbrev pub from_start :
    Problem
    → Vehicle
    → List Order
    → Option ℤ
    → List (ℕ × ChargeStop)
    → Location
    → Result (List Step)
from_start p v os start charges l =
    serve_all p v charges 0 os (at_start p v os start l)
    >>= then_end p v l (at_start p v os start l)

pub build_timeline-inv :
    (p : Problem) (i : String) (ids : List String) (start : Option ℤ)
    (charges : List (ℕ × ChargeStop)) (v : Vehicle) (os : List Order) (timeline : List Step)
    → vehicle p i ≡ ok v
    → map_result (order p) ids ≡ ok os
    → build_timeline p i ids start charges ≡ ok timeline
    → (l : Location) × (steps : List Step) × (s' : Progress) × (last : Step) × (location p
          v.start_location_id
        ≡ ok l)
      × (serve_all p v charges 0 os (at_start p v os start l) ≡ ok (steps, s'))
      × (end_step p v s' ≡ ok last)
      × (start_step l.id (at_start p v os start l) ∷ steps ++ last ∷ [] ≡ timeline)
unfolding build_timeline
build_timeline-inv p i ids start charges v os timeline found orders h =
    let h₀ = rw (found, orders) at h in
    let (l, e₁, h₁) =
      >>=-eq-ok (location p v.start_location_id) (from_start p v os start charges) h₀ in
    let ((steps, s'), e₂, h₂) =
      >>=-eq-ok (serve_all p v charges 0 os (at_start p v os start l))
        (then_end p v l (at_start p v os start l)) h₁ in
    let (last, e₃, h₃) =
      >>=-eq-ok (end_step p v s') (with_ends l (at_start p v os start l) steps) h₂ in
    (l, steps, s', last, e₁, e₂, e₃, ok-injective h₃)
