-- ===== src/Evaluator/Accounts.antt =====
-- `route_metrics` on the timelines of `build_timeline` (vrp/evaluator.py).
use osrm_microservice.Prelude.{
  ℕ, ◌≡◌, refl, ap, ◌∙◌, subst, Option, List, [], ◌∷◌, String, ℤ, pos, pos_part, neg_part, ◌+ℤ◌,
  ◌-ℤ◌, int_laws, ok,
}
use osrm_microservice.Model.Problem.{Problem}
use osrm_microservice.Model.Vehicle.{Vehicle}
use osrm_microservice.Model.Plan.{Step, waiting}
use osrm_microservice.Evaluator.Timeline.{ChargeStop, build_timeline}
use osrm_microservice.Evaluator.Metrics.{
  Metrics, no_metrics, penalties, soft_penalties, add_pair, add_pairs, route_metrics,
}
use osrm_microservice.Evaluator.Timeline.Joined.{Joined, Chained}
use osrm_microservice.Evaluator.Timeline.Chained.{timeline-Chained}

from_nothing : (a : ℤ) → pos 0 +ℤ pos 0 +ℤ pos 0 +ℤ a ≡ a
from_nothing a = omega int_laws

-- The seconds of a route.
abbrev pub total_seconds : Metrics → ℤ
total_seconds m = m.driving_seconds +ℤ m.waiting_seconds +ℤ m.service_seconds

abbrev pub last_departure : Step → List Step → ℤ
last_departure step [] = step.departure
last_departure step (next ∷ later) = last_departure next later

module _ (p : Problem) (v : Vehicle) where
  after_pair : Step → Step → ℤ → ℤ → ℤ × ℤ → Metrics → Metrics
  after_pair a b metres taken costs m = record {
    distance = m.distance +ℤ metres;
    driving_seconds = m.driving_seconds +ℤ taken;
    waiting_seconds = m.waiting_seconds +ℤ waiting b;
    service_seconds = m.service_seconds +ℤ (b.departure -ℤ b.start_service);
    earliness_penalty = m.earliness_penalty +ℤ costs.0;
    lateness_penalty = m.lateness_penalty +ℤ costs.1;
  }

  add_pair-Joined :
      (a b : Step) (m : Metrics) (j : Joined p v a b)
      → add_pair p a b m ≡ ok (after_pair a b j.metres j.taken (penalties j.windows b) m)
  unfolding add_pair soft_penalties after_pair
  add_pair-Joined a b m j = rw (j.from, j.to, j.measured, j.timed, j.promised) refl

  pair_seconds :
      (a b : Step) (m : Metrics) (j : Joined p v a b)
      → total_seconds (after_pair a b j.metres j.taken (penalties j.windows b) m)
        ≡ total_seconds m +ℤ (b.departure -ℤ a.departure)
  unfolding after_pair waiting
  pair_seconds a b m j = omega (int_laws, ap pos_part j.arrives, ap neg_part j.arrives)

  add_up : (t : ℤ) (a b c : ℤ) → t +ℤ (b -ℤ a) +ℤ (c -ℤ b) ≡ t +ℤ (c -ℤ a)
  add_up t a b c = omega int_laws

  nothing_more : (t a : ℤ) → t ≡ t +ℤ (a -ℤ a)
  nothing_more t a = omega int_laws

  add_pairs-total :
      (a : Step) (later : List Step) (m : Metrics)
      → Chained p v a later
      → (m' : Metrics) × (add_pairs p a later m ≡ ok m')
        × (total_seconds m' ≡ total_seconds m +ℤ (last_departure a later -ℤ a.departure))
  unfolding add_pairs
  add_pairs-total a [] m c = (m, refl, nothing_more (total_seconds m) a.departure)
  add_pairs-total a (b ∷ later) m c =
      let next = after_pair a b c.0.metres c.0.taken (penalties c.0.windows b) m in
      let (m', same, seconds) = add_pairs-total b later next c.1 in
      (
        m',
        rw (add_pair-Joined a b m c.0) same,
        seconds
            ∙ ap (λ t. t +ℤ (last_departure b later -ℤ b.departure)) (pair_seconds a b m c.0)
            ∙ add_up (total_seconds m) a.departure b.departure (last_departure b later),
      )

-- Whenever a timeline is built, with or without charges: its metrics are returned, and the seconds of
-- driving, waiting and service add up to the time from the departure of its first step to that of its
-- last, so that the timeline and the metrics account for the same day.
pub route_metrics-accounts :
    (p : Problem) (i : String) (ids : List String) (start : Option ℤ)
    (charges : List (ℕ × ChargeStop)) (timeline : List Step)
    → build_timeline p i ids start charges ≡ ok timeline
    → (first : Step) × (later : List Step) × (m : Metrics) × (first ∷ later ≡ timeline)
      × (route_metrics p timeline ≡ ok m)
      × (total_seconds m ≡ last_departure first later -ℤ first.departure)
unfolding route_metrics
route_metrics-accounts p i ids start charges timeline h =
    let (v, first, later, found, same, going, leaves, serves, c) =
      timeline-Chained p ids start charges i timeline h in
    let (m, returns, seconds) = add_pairs-total p v first later no_metrics c in
    (
      first,
      later,
      m,
      same,
      subst (λ (t : List Step). route_metrics p t ≡ ok m) same returns,
      seconds ∙ from_nothing (last_departure first later -ℤ first.departure),
    )
