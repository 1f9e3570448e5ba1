-- ===== src/TimeDependent/Filter.antt =====
-- The report of `filter_moves` (vrp/timedependent.py) against the exact evaluation.
use osrm_microservice.Prelude.{
  ℕ, ◌+◌, ◌≡◌, refl, arith, Bool, false, Bool-cases, ltb→<ℤ, <ℤ→ltb, List, [], ◌∷◌, if◌then◌else◌,
  inl, inr, All, length, ℤ, pos, negsuc, ◌+ℤ◌, ltb_ℤ, ◌≤ℤ◌, int_laws, ok, err,
}
use osrm_microservice.TimeDependent.{
  SpeedProfile, IsProfile, travel, arrival, fastest_possible, Move, FilterReport, filter_step,
  filter_from, filter_moves,
}
use osrm_microservice.TimeDependent.Seconds.{travel-IsFirst}
use osrm_microservice.TimeDependent.Fifo.{fastest_possible-le-travel}

-- By the exact evaluation alone: the vehicle arrives after the deadline.
pub is_late : SpeedProfile → Move → Bool
is_late p m = elim (arrival m.free_flow m.depart p) [ ok at ↦ ltb_ℤ m.deadline at | err _ ↦ false ]

pub late_count : SpeedProfile → List Move → ℕ
unfolding is_late
late_count p [] = 0
late_count p (m ∷ ms) = (if is_late p m then 1 else 0) + late_count p ms

abbrev pub IsDrivable : Move → Type 0
IsDrivable m = pos 0 ≤ℤ m.free_flow

travel_returns :
    (p : SpeedProfile) (f depart : ℤ)
    → IsProfile p
    → pos 0 ≤ℤ f
    → (t : ℕ) × (travel f depart p ≡ ok t)
travel_returns p (pos n) depart v h = let (t, same, _) = travel-IsFirst p n depart v in (t, same)
travel_returns p (negsuc n) depart v h = absurd (omega arith)

is_late_lem :
    (p : SpeedProfile) (m : Move) (t : ℕ)
    → travel m.free_flow m.depart p ≡ ok t
    → is_late p m ≡ ltb_ℤ m.deadline (m.depart +ℤ pos t)
unfolding is_late arrival
is_late_lem p m t same = rw (same, is_late, arrival)

filter_step_lem :
    (p : SpeedProfile) (m : Move) (r : FilterReport)
    → IsProfile p
    → IsDrivable m
    → (r' : FilterReport) × (filter_step p m r ≡ ok r')
      × (r'.considered ≡ r.considered + 1)
      × (r'.pruned + r'.passed_then_rejected
          ≡ r.pruned + r.passed_then_rejected + (if is_late p m then 1 else 0))
unfolding filter_step arrival
filter_step_lem p m r v h =
    let (t, same) = travel_returns p m.free_flow m.depart v h in
    let bound = fastest_possible-le-travel p m.free_flow m.depart t v same in
    let late = is_late_lem p m t same in
    let earliest = m.depart +ℤ pos (fastest_possible m.free_flow p) in
    elim (Bool-cases (ltb_ℤ m.deadline earliest)) [
      | inl pruned ↦ (
        record r { considered = r.considered + 1; pruned = r.pruned + 1 },
        rw pruned,
        refl,
        rw
            (
              late,
              <ℤ→ltb m.deadline (m.depart +ℤ pos t)
                  (omega (int_laws, ltb→<ℤ m.deadline earliest pruned, bound)),
            )
            (omega arith),
      )
      | inr passed ↦ elim (Bool-cases (ltb_ℤ m.deadline (m.depart +ℤ pos t))) [
        | inl after ↦ (
          record r {
            considered = r.considered + 1;
            passed_then_rejected = r.passed_then_rejected + 1;
          },
          rw (passed, same, after),
          refl,
          rw (late, after) (omega arith),
        )
        | inr in_time ↦ (
          record r { considered = r.considered + 1 },
          rw (passed, same, in_time),
          refl,
          rw (late, in_time) (omega arith),
        )
      ]
    ]

filter_from_lem :
    (p : SpeedProfile) (ms : List Move) (r : FilterReport)
    → IsProfile p
    → All IsDrivable ms
    → (r' : FilterReport) × (filter_from p ms r ≡ ok r')
      × (r'.considered ≡ r.considered + length ms)
      × (r'.pruned + r'.passed_then_rejected ≡ r.pruned + r.passed_then_rejected + late_count p ms)
unfolding filter_from late_count
filter_from_lem p [] r v h = (r, refl, omega arith, omega arith)
filter_from_lem p (m ∷ ms) r v h =
    let (mid, step, one, some_late) = filter_step_lem p m r v h.0 in
    let (last, same, all, late) = filter_from_lem p ms mid v h.1 in
    (last, rw step same, omega (arith, one, all), omega (arith, some_late, late))

-- For a profile that was constructed and moves whose free-flow durations are not negative, the
-- report is returned, it has considered every move, and the moves that it has pruned together with
-- those that passed and were rejected are as many as the moves that arrive after their deadline by
-- the exact evaluation alone: nothing feasible is pruned and nothing infeasible is kept.
pub filter_moves-counts-late :
    (p : SpeedProfile) (ms : List Move)
    → IsProfile p
    → All IsDrivable ms
    → (r : FilterReport) × (filter_moves p ms ≡ ok r)
      × (r.considered ≡ length ms)
      × (r.pruned + r.passed_then_rejected ≡ late_count p ms)
unfolding filter_moves
filter_moves-counts-late p ms v h =
    let (r, same, all, late) =
      filter_from_lem p ms (record { considered = 0; pruned = 0; passed_then_rejected = 0 }) v h in
    (r, same, omega (arith, all), omega (arith, late))
