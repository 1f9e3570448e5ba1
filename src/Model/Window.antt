-- ===== src/Model/Window.antt =====
-- `TimeWindow` of vrp/model.py.
use osrm_microservice.Prelude.{
  Bool, ◌&&◌, ◌||◌, Option, none, some, if◌then◌else◌, String, str_eq, ℤ, pos, ◌+ℤ◌, leb_ℤ, eqb_ℤ,
  max_ℤ, ltb_ℤ, Result, ok, validation_error, require, or_raise, ◌>>=◌, ◌>>◌, false, true, List,
  keep, not,
}

pub data Hardness : Type 0 where
  hard soft : Hardness

pub record TimeWindow : Type 0 where
  pub start : ℤ
  pub end : ℤ
  pub hardness : Hardness
  pub earliness_cost_per_sec : ℤ
  pub lateness_cost_per_sec : ℤ

-- `hardness in ("HARD", "SOFT")`
unfoldable pub hardness_of : String → Option Hardness
hardness_of text =
    if str_eq text "HARD" then some hard else if str_eq text "SOFT" then some soft else none

abbrev pub is_soft : Hardness → Bool
is_soft hard = false
is_soft soft = true

-- A penalty is not negative, and only a soft window may carry one.
unfoldable pub require_cost : Hardness → ℤ → Result (Unit {0})
require_cost h cost = do
  require (leb_ℤ (pos 0) cost) validation_error
  require (is_soft h || eqb_ℤ cost (pos 0)) validation_error

-- `TimeWindow(start, end, hardness, ...)` with the checks of `__post_init__`.
unfoldable pub time_window : ℤ → ℤ → String → ℤ → ℤ → Result TimeWindow
unfolding require_cost hardness_of
time_window start end hardness early late = do
  require (leb_ℤ start end) validation_error
  h ← or_raise (hardness_of hardness) validation_error
  require_cost h early
  require_cost h late
  ok (record {
    start = start;
    end = end;
    hardness = h;
    earliness_cost_per_sec = early;
    lateness_cost_per_sec = late;
  })

unfoldable pub contains : TimeWindow → ℤ → Bool
contains w instant = leb_ℤ w.start instant && leb_ℤ instant w.end

-- `[w for w in windows if w.hardness == "HARD"]`
abbrev pub hard_windows : List TimeWindow → List TimeWindow
hard_windows ws = keep (λ w. not (is_soft w.hardness)) ws

-- The window that a service level implies.
unfoldable pub sla_window : ℤ → ℤ → ℤ → Result TimeWindow
unfolding time_window
sla_window reported_at respond_within opens_at = do
  require (ltb_ℤ (pos 0) respond_within) validation_error
  time_window (max_ℤ opens_at reported_at) (reported_at +ℤ respond_within) "HARD" (pos 0) (pos 0)
