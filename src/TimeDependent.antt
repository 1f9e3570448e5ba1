-- ===== src/TimeDependent.antt =====
-- vrp/timedependent.py: piecewise-constant speeds, the walk over their buckets, and the bound that
-- filters moves. The proofs are in the modules below.
mod Clock
pub mod Profile
pub mod Seconds
pub mod Fifo
pub mod Filter
use osrm_microservice.Prelude.{
  ℕ, zero, suc, ◌+◌, ◌-◌, ◌*◌, ◌/◌, ◌<◌, max, ◌≢◌, Bool, true, false, Option, none, some, List, [],
  ◌∷◌, map, ltb, leb, ◌==◌, if◌then◌else◌, any, get_or, length, All, ℤ, pos, negsuc, pos_part, ◌+ℤ◌,
  mod_ℤ, leb_ℤ, ltb_ℤ, ceil_div, Error, Result, ok, err, value_error, out_of_fuel, or_raise, ◌>>=◌,
  String,
}

abbrev pub ppt : ℕ
ppt = 1000

pub record SpeedProfile : Type 0 where
  pub bucket_seconds : ℕ
  pub multipliers_ppt : List ℕ

-- `SpeedProfile(bucket_seconds, multipliers_ppt)` with the checks of `__post_init__`.
unfoldable pub speed_profile : ℤ → List ℤ → Result SpeedProfile
speed_profile bucket [] = err value_error
speed_profile bucket (m ∷ ms) =
    if leb_ℤ bucket (pos 0)
    then err value_error
    else if any (λ k. leb_ℤ k (pos 0)) (m ∷ ms)
    then err value_error
    else ok (record { bucket_seconds = pos_part bucket; multipliers_ppt = map pos_part (m ∷ ms) })

-- What those checks leave.
pub record IsProfile (p : SpeedProfile) : Type 0 where
  pub bucket_pos : 0 < p.bucket_seconds
  pub some_bucket : 0 < length p.multipliers_ppt
  pub all_pos : All (λ m. 0 < m) p.multipliers_ppt

unfoldable pub span : SpeedProfile → ℕ
span p = p.bucket_seconds * length p.multipliers_ppt

unfoldable pub bucket_index : SpeedProfile → ℤ → ℕ
unfolding span
bucket_index p instant = mod_ℤ instant (span p) / p.bucket_seconds

-- The index is in range for every profile that was constructed.
unfoldable pub multiplier_at : SpeedProfile → ℤ → ℕ
unfolding bucket_index
multiplier_at p instant = get_or p.multipliers_ppt (bucket_index p instant) 0

abbrev maximum : List ℕ → ℕ
maximum [] = 0
maximum (x ∷ xs) = max x (maximum xs)

unfoldable pub fastest_ppt : SpeedProfile → ℕ
fastest_ppt p = maximum p.multipliers_ppt

unfoldable pub to_boundary : SpeedProfile → ℤ → ℕ
to_boundary p clock = p.bucket_seconds - mod_ℤ clock p.bucket_seconds

-- The `while remaining > 0` loop, one unit of fuel for a round. The subtraction is exact: the
-- branch is taken only if `to_boundary * multiplier < remaining`.
walk : ℕ → SpeedProfile → ℕ → ℤ → ℕ → Option ℕ
walk zero p remaining clock elapsed = none
walk (suc fuel) p remaining clock elapsed =
    let multiplier = multiplier_at p clock in
    let to_end = to_boundary p clock in
    let needed = ceil_div remaining multiplier in
    let rest =
      walk fuel p (remaining - to_end * multiplier) (clock +ℤ pos to_end) (elapsed + to_end) in
    if remaining == 0
    then some elapsed
    else if leb needed to_end
    then some (elapsed + needed)
    else rest

unfoldable pub travel : ℤ → ℤ → SpeedProfile → Result ℕ
unfolding walk
travel (negsuc n) depart p = err value_error
travel (pos zero) depart p = ok 0
travel (pos (suc n)) depart p =
    or_raise (walk (suc (suc n * ppt)) p (suc n * ppt) depart 0) out_of_fuel

unfoldable pub arrival : ℤ → ℤ → SpeedProfile → Result ℤ
arrival free_flow depart p = do taken ← travel free_flow depart p; ok (depart +ℤ pos taken)

unfoldable pub fastest_possible : ℤ → SpeedProfile → ℕ
fastest_possible (negsuc n) p = 0
fastest_possible (pos n) p = if n == 0 then 0 else ceil_div (n * ppt) (fastest_ppt p)

pub data ArcClass : Type 0 where
  local arterial trunk : ArcClass

unfoldable pub arc_class_of : ℤ → ArcClass
arc_class_of free_flow =
    if leb_ℤ free_flow (pos 300)
    then local
    else if leb_ℤ free_flow (pos 1200)
    then arterial
    else trunk

pub record FilterReport : Type 0 where
  pub considered : ℕ
  pub pruned : ℕ
  pub passed_then_rejected : ℕ

unfoldable pub false_negative_rate_ppt : FilterReport → ℕ
false_negative_rate_ppt r =
    let infeasible = r.pruned + r.passed_then_rejected in
    if infeasible == 0 then 0 else r.passed_then_rejected * ppt / infeasible

unfoldable pub pruned_share_ppt : FilterReport → ℕ
pruned_share_ppt r = if r.considered == 0 then 0 else r.pruned * ppt / r.considered

pub record Move : Type 0 where
  pub free_flow : ℤ
  pub depart : ℤ
  pub deadline : ℤ

-- One round of the `for` loop of `filter_moves`.
filter_step : SpeedProfile → Move → FilterReport → Result FilterReport
filter_step p m r =
    if ltb_ℤ m.deadline (m.depart +ℤ pos (fastest_possible m.free_flow p))
    then ok (record r { considered = r.considered + 1; pruned = r.pruned + 1 })
    else do
      at ← arrival m.free_flow m.depart p
      ok (
          if ltb_ℤ m.deadline at
          then record r {
            considered = r.considered + 1;
            passed_then_rejected = r.passed_then_rejected + 1;
          }
          else record r { considered = r.considered + 1 })

filter_from : SpeedProfile → List Move → FilterReport → Result FilterReport
unfolding filter_step
filter_from p [] r = ok r
filter_from p (m ∷ ms) r = do r' ← filter_step p m r; filter_from p ms r'

unfoldable pub filter_moves : SpeedProfile → List Move → Result FilterReport
unfolding filter_from
filter_moves p ms =
    filter_from p ms (record { considered = 0; pruned = 0; passed_then_rejected = 0 })
