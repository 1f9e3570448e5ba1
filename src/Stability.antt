-- ===== src/Stability.antt =====
-- `churn` and `churn_cost` of vrp/stability.py: how much a plan moved.
use osrm_microservice.Prelude.{
  Option, none, some, List, [], ◌∷◌, map, length, if◌then◌else◌, String, lookup, insert, member, ℤ,
  pos, ◌+ℤ◌, ◌-ℤ◌, ◌*ℤ◌, ltb_ℤ,
}
use osrm_microservice.Model.Plan.{Step, Route, Solution}
use osrm_microservice.Committed.{moved_since}

pub record Churn : Type 0 where
  pub moved : ℤ
  pub eta_shift : ℤ

unfoldable pub arrive_all : List Step → List (String × ℤ) → List (String × ℤ)
arrive_all [] arrivals = arrivals
arrive_all (step ∷ steps) arrivals = elim step.order_id [
  | none ↦ arrive_all steps arrivals
  | some i ↦ arrive_all steps (insert i step.start_service arrivals)
]

unfoldable pub arrivals_from : List Route → List (String × ℤ) → List (String × ℤ)
unfolding arrive_all
arrivals_from [] arrivals = arrivals
arrivals_from (r ∷ rs) arrivals = arrivals_from rs (arrive_all r.steps arrivals)

-- `_arrivals`
unfoldable pub arrivals : Solution → List (String × ℤ)
unfolding arrivals_from
arrivals s = arrivals_from s.routes []

-- `abs(a - b)`
unfoldable pub apart : ℤ → ℤ → ℤ
apart a b = if ltb_ℤ (a -ℤ b) (pos 0) then pos 0 -ℤ (a -ℤ b) else a -ℤ b

abbrev pub shift_of : Option ℤ → ℤ → ℤ
shift_of none time = pos 0
shift_of (some now) time = apart now time

-- Only a stop that is still planned and kept its vehicle shifts.
unfoldable pub drift : List String → List (String × ℤ) → List (String × ℤ) → ℤ
unfolding apart
drift changed now [] = pos 0
drift changed now ((i, time) ∷ was) =
    (if member i changed then pos 0 else shift_of (lookup i now) time) +ℤ drift changed now was

unfoldable pub churn : Solution → Solution → Churn
unfolding arrivals drift
churn previous candidate =
    let changed = moved_since previous candidate in
    record {
      moved = pos (length changed);
      eta_shift = drift (map (λ e. e.0) changed) (arrivals candidate) (arrivals previous);
    }

unfoldable pub churn_cost : Solution → Solution → ℤ → ℤ → ℤ
unfolding churn
churn_cost previous candidate per_move per_second =
    let measured = churn previous candidate in
    measured.moved *ℤ per_move +ℤ measured.eta_shift *ℤ per_second
