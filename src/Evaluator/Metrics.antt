-- ===== src/Evaluator/Metrics.antt =====
-- `route_metrics`, `soft_penalties`, `lateness` and `window_attainment` of vrp/evaluator.py: what one
-- timeline costs in time and distance, and which promises it keeps.
pub mod Promises
use osrm_microservice.Prelude.{
  ℕ, suc, ◌+◌, ◌*◌, ◌/◌, ◌==◌, ◌&&◌, Bool, true, false, not, Option, none, some, List, [], ◌∷◌,
  if◌then◌else◌, any, keep, String, ℤ, pos, ◌+ℤ◌, ◌-ℤ◌, ◌*ℤ◌, leb_ℤ, ltb_ℤ, max_ℤ, div_ℤ, Result,
  ok, err, value_error, or_raise, ◌>>=◌,
}
use osrm_microservice.Model.Window.{TimeWindow, is_soft, contains}
use osrm_microservice.Model.Stop.{StopSpec}
use osrm_microservice.Model.Order.{Order}
use osrm_microservice.Model.Matrix.{distance}
use osrm_microservice.Model.Problem.{Problem, location, order, position}
use osrm_microservice.Model.Plan.{Step, waiting}
use osrm_microservice.Model.Travel.{travel_between}
use osrm_microservice.Model.Service.{delivery_or_pickup}

-- `_windows_of`; a step without an order promised nothing.
unfoldable pub windows_of : Problem → Step → Result (List TimeWindow)
windows_of p step = elim step.order_id [
  | none ↦ ok []
  | some i ↦ do
    o ← order p i
    stop ← or_raise (delivery_or_pickup o) value_error
    ok stop.time_windows
]

-- The cost of one window: earliness from the arrival, lateness from the start of service.
unfoldable pub early_cost : TimeWindow → Step → ℤ
early_cost w step =
    if is_soft w.hardness && ltb_ℤ step.arrival w.start
    then (w.start -ℤ step.arrival) *ℤ w.earliness_cost_per_sec
    else pos 0

unfoldable pub late_cost : TimeWindow → Step → ℤ
late_cost w step =
    if is_soft w.hardness && ltb_ℤ w.end step.start_service
    then (step.start_service -ℤ w.end) *ℤ w.lateness_cost_per_sec
    else pos 0

unfoldable pub penalties : List TimeWindow → Step → ℤ × ℤ
unfolding early_cost late_cost
penalties [] step = (pos 0, pos 0)
penalties (w ∷ ws) step =
    (early_cost w step +ℤ (penalties ws step).0, late_cost w step +ℤ (penalties ws step).1)

unfoldable pub soft_penalties : Problem → Step → Result (ℤ × ℤ)
soft_penalties p step = do ws ← windows_of p step; ok (penalties ws step)

pub record Metrics : Type 0 where
  pub distance : ℤ
  pub driving_seconds : ℤ
  pub waiting_seconds : ℤ
  pub service_seconds : ℤ
  pub earliness_penalty : ℤ
  pub lateness_penalty : ℤ

abbrev pub no_metrics : Metrics
no_metrics = record {
  distance = pos 0;
  driving_seconds = pos 0;
  waiting_seconds = pos 0;
  service_seconds = pos 0;
  earliness_penalty = pos 0;
  lateness_penalty = pos 0;
}

-- What one pair of neighbours adds.
unfoldable pub add_pair : Problem → Step → Step → Metrics → Result Metrics
add_pair p previous current m = do
  origin ← location p previous.location_id
  destination ← location p current.location_id
  metres ← distance p.matrix (position origin) (position destination)
  taken ← travel_between p (position origin) (position destination) previous.departure
  (early, late) ← soft_penalties p current
  ok (record {
    distance = m.distance +ℤ metres;
    driving_seconds = m.driving_seconds +ℤ taken;
    waiting_seconds = m.waiting_seconds +ℤ waiting current;
    service_seconds = m.service_seconds +ℤ (current.departure -ℤ current.start_service);
    earliness_penalty = m.earliness_penalty +ℤ early;
    lateness_penalty = m.lateness_penalty +ℤ late;
  })

-- The loop over `pairwise(timeline)`.
unfoldable pub add_pairs : Problem → Step → List Step → Metrics → Result Metrics
add_pairs p previous [] m = ok m
add_pairs p previous (current ∷ later) m = do
  m' ← add_pair p previous current m
  add_pairs p current later m'

unfoldable pub route_metrics : Problem → List Step → Result Metrics
unfolding add_pairs
route_metrics p [] = ok no_metrics
route_metrics p (first ∷ later) = add_pairs p first later no_metrics

-- The largest end among the windows that closed before the instant, if any did.
unfoldable pub last_closed : ℤ → List TimeWindow → Option ℤ
last_closed instant [] = none
last_closed instant (w ∷ ws) =
    let later = last_closed instant ws in
    if ltb_ℤ w.end instant
    then some (elim later [ some end ↦ max_ℤ w.end end | none ↦ w.end ])
    else later

unfoldable pub is_kept : ℤ → List TimeWindow → Bool
is_kept instant ws = any (λ w. contains w instant) ws

-- The lateness against given windows; no windows and a kept promise are not late.
unfoldable pub late_by : ℤ → List TimeWindow → ℤ
unfolding last_closed is_kept
late_by instant [] = pos 0
late_by instant (w ∷ ws) =
    if is_kept instant (w ∷ ws)
    then pos 0
    else elim (last_closed instant (w ∷ ws)) [ some end ↦ instant -ℤ end | none ↦ pos 0 ]

unfoldable pub lateness : Problem → Step → Result ℤ
unfolding late_by
lateness p step = do ws ← windows_of p step; ok (late_by step.start_service ws)

pub record Attainment : Type 0 where
  pub promised : ℕ
  pub on_time : ℕ
  pub lateness_seconds : ℤ
  pub worst_lateness : ℤ

abbrev pub nothing_promised : Attainment
nothing_promised = record {
  promised = 0;
  on_time = 0;
  lateness_seconds = pos 0;
  worst_lateness = pos 0;
}

-- `promised - on_time`
unfoldable pub missed : Attainment → ℤ
missed a = pos a.promised -ℤ pos a.on_time

abbrev pub full : ℕ
full = 1000

unfoldable pub attained_ppt : Attainment → ℕ
attained_ppt a = if a.promised == 0 then full else a.on_time * full / a.promised

-- One round of the loop, by the windows of the step.
unfoldable pub count_step : List TimeWindow → ℤ → Attainment → Attainment
unfolding late_by
count_step [] instant a = a
count_step (w ∷ ws) instant a = record {
  promised = a.promised + 1;
  on_time = if is_kept instant (w ∷ ws) then a.on_time + 1 else a.on_time;
  lateness_seconds = a.lateness_seconds +ℤ late_by instant (w ∷ ws);
  worst_lateness = max_ℤ a.worst_lateness (late_by instant (w ∷ ws));
}

unfoldable pub count_from : Problem → List Step → Attainment → Result Attainment
unfolding count_step
count_from p [] a = ok a
count_from p (step ∷ steps) a = do
  ws ← windows_of p step
  count_from p steps (count_step ws step.start_service a)

unfoldable pub window_attainment : Problem → List Step → Result Attainment
unfolding count_from
window_attainment p timeline = count_from p timeline nothing_promised
