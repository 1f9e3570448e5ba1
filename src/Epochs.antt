-- ===== src/Epochs.antt =====
-- vrp/epochs.py: the waves of a day, and which of the open orders leave with a wave.
pub mod Tiles
pub mod Decision
use osrm_microservice.Prelude.{
  ℕ, zero, suc, ◌+◌, ◌-◌, Bool, true, false, ◌&&◌, ◌||◌, not, List, [], ◌∷◌, any, keep,
  if◌then◌else◌, String, str_eq, member, ℤ, pos, ◌+ℤ◌, leb_ℤ, ltb_ℤ, min_ℤ, gap, Result, ok, err,
  value_error, out_of_fuel, ◌>>=◌,
}
use osrm_microservice.Model.Window.{TimeWindow}
use osrm_microservice.Model.Order.{Order, is_empty}
use osrm_microservice.Model.Problem.{Problem, order}
use osrm_microservice.Diagnose.{any_result, can_reach}

pub record Epoch : Type 0 where
  pub index : ℕ
  pub start : ℤ
  pub end : ℤ

pub record Classification : Type 0 where
  pub must_go : List String
  pub deferrable : List String

pub record Dispatch : Type 0 where
  pub dispatched : List String
  pub postponed : List String
  pub forced : List String

-- A policy may raise.
abbrev pub Policy : Type 0
Policy = List String → Classification → Epoch → Result (List String)

-- The waves from one instant on. The fuel bounds their number.
unfoldable pub waves_from : ℕ → ℕ → ℤ → ℤ → ℤ → Result (List Epoch)
waves_from zero index start end length = if ltb_ℤ start end then err out_of_fuel else ok []
waves_from (suc fuel) index start end length =
    let rest = waves_from fuel (suc index) (start +ℤ length) end length in
    if not (ltb_ℤ start end) then ok [] else do
      later ← rest
      ok (record { index = index; start = start; end = min_ℤ (start +ℤ length) end } ∷ later)

-- `epochs`; every wave takes at least a second off the horizon.
unfoldable pub epochs : TimeWindow → ℤ → Result (List Epoch)
unfolding waves_from
epochs horizon length =
    if leb_ℤ length (pos 0)
    then err value_error
    else waves_from (gap horizon.start horizon.end) 0 horizon.start horizon.end length

-- `must_go`
unfoldable pub must_go : Problem → Order → ℤ → Result Bool
must_go p o postponed_to =
    if is_empty p.vehicles
    then ok true
    else do reached ← any_result (can_reach p o postponed_to) p.vehicles; ok (not reached)

abbrev pub sort_in : String → Bool → Classification → Classification
sort_in id must rest =
    if must
    then record rest { must_go = id ∷ rest.must_go }
    else record rest { deferrable = id ∷ rest.deferrable }

-- `classify`
unfoldable pub classify : Problem → List String → ℤ → Result Classification
unfolding must_go
classify p [] postponed_to = ok (record { must_go = []; deferrable = [] })
classify p (id ∷ ids) postponed_to = do
  o ← order p id
  must ← must_go p o postponed_to
  rest ← classify p ids postponed_to
  ok (sort_in id must rest)

-- `list(dict.fromkeys(ids))`: the first of equal ones stays.
unfoldable pub distinct : List String → List String
distinct [] = []
distinct (id ∷ ids) = id ∷ keep (λ other. not (str_eq other id)) (distinct ids)

-- What leaves, from the orders that are open, those that must go, and the policy's choice.
unfoldable pub dispatch_of : List String → List String → List String → Dispatch
unfolding member
dispatch_of open_ids must chosen =
    let forced = keep (λ id. not (member id chosen)) must in
    let dispatched = keep (λ id. member id chosen || member id forced) open_ids in
    record {
      dispatched = dispatched;
      postponed = keep (λ id. not (member id dispatched)) open_ids;
      forced = forced;
    }

-- `decide`
unfoldable pub decide : Problem → List String → Epoch → Policy → Result Dispatch
unfolding classify distinct dispatch_of
decide p open_ids epoch policy = do
  split ← classify p open_ids epoch.end
  named ← policy open_ids split epoch
  let chosen = distinct named
  if any (λ id. not (member id open_ids)) chosen
      then err value_error
      else ok (dispatch_of open_ids split.must_go chosen)
