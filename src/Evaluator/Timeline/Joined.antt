-- ===== src/Evaluator/Timeline/Joined.antt =====
-- Neighbours in the timelines of `build_timeline` (vrp/evaluator.py), and the arc between them.
use osrm_microservice.Prelude.{
  arith, false, Bool-cases, inl, inr, Option, Error, or_raise, value_error, ◌≤ℤ◌, max_ℤ_le, ◌≡◌,
  refl, sym, subst, none, some, List, [], ◌∷◌, String, ℤ, ◌+ℤ◌, ok, ok-injective,
}
use osrm_microservice.Model.Window.{TimeWindow}
use osrm_microservice.Model.Stop.{Location, StopSpec}
use osrm_microservice.Model.Order.{Order, is_some}
use osrm_microservice.Model.Vehicle.{Vehicle, ends_at}
use osrm_microservice.Model.Matrix.{distance}
use osrm_microservice.Model.Problem.{Problem, location, order, position}
use osrm_microservice.Model.Plan.{Step, is_break, is_delivery}
use osrm_microservice.Model.Travel.{travel_between}
use osrm_microservice.Model.Service.{delivery_or_pickup, service_time}
use osrm_microservice.Evaluator.Timeline.{
  Progress, Reading, service_start, served_type, served, end_step,
}
use osrm_microservice.Evaluator.Timeline.Chains.{location-id, Found, end_step-found}
use osrm_microservice.Evaluator.Metrics.{windows_of}

raised_some {ℓ} : {A : Type ℓ} (o : Option A) (e : Error) (a : A) → or_raise o e ≡ ok a → o ≡ some a
raised_some none e a h = cc
raised_some (some b) e a h = cc

service_start-after : (arrival : ℤ) (ws : List TimeWindow) → arrival ≤ℤ service_start arrival ws
unfolding service_start
service_start-after arrival [] = omega arith
service_start-after arrival (w ∷ ws) =
    ground (arith, max_ℤ_le arrival w.start, service_start-after arrival ws)

module _ (p : Problem) (v : Vehicle) where
  -- A step takes the time that it must: none without an order, the order's service time with one.
  pub data Serves (b : Step) : Type 0 where
    idle : b.order_id ≡ none → b.arrival ≤ℤ b.start_service → Serves b
    busy :
        (o : Order) (l : Location) (service : ℤ)
        → b.order_id ≡ some o.id
        → order p o.id ≡ ok o
        → is_delivery b.type ≡ is_some o.delivery
        → location p b.location_id ≡ ok l
        → service_time o v l ≡ some service
        → b.arrival ≤ℤ b.start_service
        → b.departure ≡ b.start_service +ℤ service
        → Serves b

  -- The next step is reached from the one before it by driving the arc between their places.
  pub record Joined (a b : Step) : Type 0 where
    pub origin : Location
    pub destination : Location
    pub metres : ℤ
    pub taken : ℤ
    pub windows : List TimeWindow
    pub from : location p a.location_id ≡ ok origin
    pub to : location p b.location_id ≡ ok destination
    pub measured : distance p.matrix (position origin) (position destination) ≡ ok metres
    pub timed : travel_between p (position origin) (position destination) a.departure ≡ ok taken
    pub promised : windows_of p b ≡ ok windows
    pub arrives : b.arrival ≡ a.departure +ℤ taken
    pub moving : is_break b.type ≡ false
    pub serves : Serves b

  abbrev pub Chained : Step → List Step → Type 0
  Chained a [] = Unit
  Chained a (b ∷ later) = Joined a b × Chained b later

  -- The step stands where the loop stands.
  pub record Stands (a : Step) (s : Progress) : Type 0 where
    pub place : Location
    pub found : location p a.location_id ≡ ok place
    pub at : position place ≡ s.at
    pub leaves : a.departure ≡ s.clock

  -- A location that was found is found again by its own identifier.
  pub found_again : (i : String) (l : Location) → location p i ≡ ok l → location p l.id ≡ ok l
  found_again i l h = subst (λ x. location p x ≡ ok l) (sym (location-id p i l h)) h

  promise_of :
      (o : Order) (stop : StopSpec) (step : Step)
      → order p o.id ≡ ok o
      → delivery_or_pickup o ≡ some stop
      → step.order_id ≡ some o.id
      → windows_of p step ≡ ok stop.time_windows
  unfolding windows_of
  promise_of o stop step known stops names = rw (names, known, stops) refl

  pub no_promise : (step : Step) → step.order_id ≡ none → windows_of p step ≡ ok []
  unfolding windows_of
  no_promise step names = rw names refl

  served_moving : (o : Order) → is_break (served_type o) ≡ false
  served_moving o = elim (Bool-cases (is_some o.delivery)) [ inl e ↦ rw e | inr e ↦ rw e ]

  served_delivers : (o : Order) → is_delivery (served_type o) ≡ is_some o.delivery
  served_delivers o = elim (Bool-cases (is_some o.delivery)) [ inl e ↦ rw e | inr e ↦ rw e ]

  pub served-Joined :
      (o : Order) (a : Step) (s : Progress) (r : Reading)
      → order p o.id ≡ ok o
      → Found p v o s r
      → Stands a s
      → Joined a (served o s r).0 × Stands (served o s r).0 (served o s r).1
  unfolding served
  served-Joined o a s r known f st = (
    record {
      origin = st.place;
      destination = r.place;
      metres = f.metres;
      taken = r.taken;
      windows = f.stop.time_windows;
      from = st.found;
      to = found_again f.stop.location_id r.place f.place;
      measured = rw st.at f.measured;
      timed = rw (st.at, st.leaves) f.taken;
      promised = promise_of o f.stop _ known f.stops refl;
      arrives = rw st.leaves refl;
      moving = served_moving o;
      serves =
          busy o r.place r.service refl known (served_delivers o)
            (found_again f.stop.location_id r.place f.place)
            (raised_some (service_time o v r.place) value_error r.service f.service)
            (service_start-after (s.clock +ℤ r.taken) r.windows) refl;
    },
    record {
      place = r.place;
      found = found_again f.stop.location_id r.place f.place;
      at = refl;
      leaves = refl;
    },
  )

  pub end-Joined :
      (a : Step) (s : Progress) (last : Step)
      → Stands a s
      → end_step p v s ≡ ok last
      → Joined a last
  end-Joined a s last st h =
      let (l, taken, metres, soc, e₁, e₂, e₃, e₄, same) = end_step-found p v s last h in
      subst (Joined a) (ok-injective same) (record {
        origin = st.place;
        destination = l;
        metres = metres;
        taken = taken;
        windows = [];
        from = st.found;
        to = found_again (ends_at v) l e₁;
        measured = rw st.at e₃;
        timed = rw (st.at, st.leaves) e₂;
        promised = no_promise _ refl;
        arrives = rw st.leaves refl;
        moving = refl;
        serves = idle refl (omega arith);
      })
