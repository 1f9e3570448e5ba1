-- ===== src/Lib.antt =====
-- The vehicle routing library of the repository, the Python package `vrp`: the domain model, the
-- canonical evaluator, the independent verifier, hours of service, battery arithmetic and time-dependent travel.
--
-- Parts, and the files that model them:
-- - Model (vrp/model.py): a record per class, a `check_<class>` function per `__post_init__`, with
--   the checks in the order of the source. Window, Stop, Order, Vehicle, Matrix, Instruction (locks
--   and synchronisations), Problem (checks across parts, lookups), Plan (steps and routes), Travel
--   (`travel_between`, `profile_for_arc`), Service (`service_time`, `may_enter`, `has_skills_for`).
-- - TimeDependent (vrp/timedependent.py): speed profiles, `travel`, `arrival`, `fastest_possible` and
--   `filter_moves`. Profile, Seconds, Fifo, Filter and Clock hold the proofs.
-- - Battery (vrp/battery.py): charging curves, `consumed_ppt`, `charge_seconds`. Curve, Consumption
--   and Charge hold the proofs.
-- - Hos (vrp/hos): Rules (vrp/hos/rules.py), Tachograph (vrp/hos/tachograph.py) and Schedule
--   (vrp/hos/schedule.py), each with its proofs below it: of one leg (Schedule/Driving), of a whole route
--   (Road, Lawful), and against the evaluator (Agreement).
-- - Evaluator (vrp/evaluator.py): Load and Timeline (`build_timeline`, with `_charge_step`), Metrics
--   (`route_metrics`, `soft_penalties`, `lateness`, `window_attainment`), Legal (`route_is_legal`)
--   and Score (`evaluate`); the modules below Timeline, Metrics/Promises, Legal,
--   Score/Breakdown and Accounts hold the proofs.
-- - Verify (vrp/verify/verifier.py): Findings (`Violation`, `Report`), one module for each group of checks
--   (Coverage, Route, Hours, Compatibility, Depots, Battery, Coupling, Locks, Objective), and `verify`.
-- - Objective (vrp/objective.py): the tiers, their levels and `compare`; Bounds (`tier_bounds`,
--   `tier_scales`), Score (`rates`, `score`). Total and Preorder hold the proofs.
-- - Committed (vrp/committed.py), Stability (vrp/stability.py) and Consistency (vrp/consistency.py):
--   what may no longer be moved, how much a plan moved, and how evenly the work fell.
-- - Diagnose (vrp/diagnose.py) and LockConflict (vrp/locks.py): why an order has no vehicle, and which
--   locks are to blame. Below LockConflict: Deletion (the filter, for any test), Fewer and Fleets (fewer
--   locks, larger fleets), Stages, Judged and Diagnosed (`preflight` under fewer locks), Irreducible.
-- - Epochs (vrp/epochs.py): the waves of a day and `decide`, which takes the dispatch policy as an
--   argument; Tiles and Decision hold the proofs. Policies (vrp/policies.py): the greedy and the lazy one.
-- - Prelude: Python's integers, dicts and sets as association lists and lists, the results of
--   fallible code, Boolean tests, lists measured by native numbers.
-- - Examples: tests, and an application of each theorem that has hypotheses.
--
-- How they interact. The verifier judges a Solution by the Problem alone, with travel times from
-- Model.Travel and the rule sets of Hos.Rules, and shares no computation with the evaluator. The evaluator reads a Problem, takes travel times from Model.Travel, which
-- scales free-flow durations by a profile of TimeDependent, and charges and drains batteries by
-- Battery. The scheduler of Hos walks the same route under a rule set of Hos.Rules and inserts
-- breaks; Hos.Tachograph reads the state that a driver starts with.
--
-- Conventions. Python's integers are ℤ, with floor division and remainder; counters and seconds that
-- cannot be negative are ℕ. An exception is an `err` that holds its class; messages are not modelled.
-- A dict is an association list that is read at the first entry of a key. Fields that the source only
-- checks for their type, and a latitude or longitude, which are floats, are left out. A mutable local
-- variable of a loop is a field of a record that the loop passes on (Progress, Shift, Leg).
--
-- Fuel. `walk` (TimeDependent) is given one round more than the distance in thousandths, since every
-- bucket covers some of it. `drive_loop` (Hos.Schedule) is given `2 * travel + 2` rounds: every second
-- of driving may need a break and a stretch. `charge_seconds` (Battery) takes its rounds as an
-- argument, and `_charge_step` gives it one more than the target: each round gains a part per
-- thousand. `waves_from` (Epochs) is given the seconds of the
-- horizon, since a wave lasts one at least. Each bound is part of a theorem below.
--
-- Not modelled: the JSON codecs of vrp/model.py, the solvers and their adapters, the search
-- heuristics, calibration, the benchmark corpora, the random policy, the gateway, the deployment,
-- triggers, depots and allocation.
pub mod Prelude
pub mod TimeDependent
pub mod Battery
pub mod Hos
pub mod Model
pub mod Evaluator
pub mod Verify
pub mod Committed
pub mod Stability
pub mod Consistency
pub mod Objective
pub mod Diagnose
pub mod LockConflict
pub mod Epochs
pub mod Policies
mod Examples
