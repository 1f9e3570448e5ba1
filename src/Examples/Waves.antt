-- ===== src/Examples/Waves.antt =====
-- A day of dispatch waves, and a policy that would send nothing.
use osrm_microservice.Prelude.{
  not, ◌||◌, ◌≡◌, refl, arith, List, [], ◌∷◌, ◌&&◌, true, false, ◌+◌, count_if, member, str_eq, pos,
  ◌+ℤ◌, max_ℤ, ok,
}
use osrm_microservice.Model.Problem.{order, location}
use osrm_microservice.Model.Matrix.{is_reachable, duration}
use osrm_microservice.Diagnose.{can_reach}
use osrm_microservice.Epochs.{Epoch, Dispatch, Policy, epochs, must_go, decide}
use osrm_microservice.Epochs.Tiles.{Tiles, is_in, epochs-partition}
use osrm_microservice.Epochs.Decision.{decide-never_postpones, decide-divides}
use osrm_microservice.Policies.{greedy, lazy, baselines-bound}
use osrm_microservice.Examples.Town.{town, parcel, window}

epochs-partition_example :
    (ws : List Epoch) × (epochs (window (pos 28800) (pos 61200)) (pos 7000) ≡ ok ws)
    × Tiles 0 (pos 28800) (pos 61200) (pos 7000) ws
    × (count_if (is_in (pos 40000)) ws ≡ 1)
epochs-partition_example =
    epochs-partition (window (pos 28800) (pos 61200)) (pos 7000) (pos 40000) (omega arith)

abbrev idle : Policy
idle ids split epoch = ok []

-- After this wave the van comes too late.
abbrev last_call : Epoch
last_call = record { index = 0; start = pos 28800; end = pos 35500 }

abbrev overruled : Dispatch
overruled = record { dispatched = "parcel" ∷ []; postponed = []; forced = "parcel" ∷ [] }

is_urgent : must_go town parcel (pos 35500) ≡ ok true
unfolding must_go can_reach location is_reachable duration ◌+ℤ◌ max_ℤ
is_urgent = refl

sent : decide town ("parcel" ∷ []) last_call idle ≡ ok overruled
unfolding decide must_go can_reach location is_reachable duration ◌+ℤ◌ max_ℤ order member
sent = refl

found : order town "parcel" ≡ ok parcel
unfolding order
found = refl

listed : member "parcel" ("parcel" ∷ []) ≡ true
unfolding member
listed = refl

decide-never_postpones_example :
    (member "parcel" overruled.dispatched ≡ true) × (member "parcel" overruled.postponed ≡ false)
decide-never_postpones_example =
    decide-never_postpones town ("parcel" ∷ []) last_call idle overruled "parcel" parcel sent listed
      found is_urgent

decide-divides_example :
    (count_if (str_eq "parcel") overruled.dispatched
        + count_if (str_eq "parcel") overruled.postponed
      ≡ count_if (str_eq "parcel") ("parcel" ∷ []))
    × ((member "parcel" overruled.dispatched && member "parcel" overruled.postponed) ≡ false)
decide-divides_example =
    decide-divides town ("parcel" ∷ []) last_call idle overruled "parcel" (str_eq "parcel") sent

-- At this wave the parcel can still wait.
abbrev first_call : Epoch
first_call = record { index = 0; start = pos 28800; end = pos 30000 }

abbrev waits : Dispatch
waits = record { dispatched = []; postponed = "parcel" ∷ []; forced = [] }

abbrev leaves : Dispatch
leaves = record { dispatched = "parcel" ∷ []; postponed = []; forced = [] }

lazy-waits : decide town ("parcel" ∷ []) first_call lazy ≡ ok waits
unfolding decide must_go can_reach location is_reachable duration ◌+ℤ◌ max_ℤ order member
lazy-waits = refl

idle-waits : decide town ("parcel" ∷ []) first_call idle ≡ ok waits
unfolding decide must_go can_reach location is_reachable duration ◌+ℤ◌ max_ℤ order member
idle-waits = refl

greedy-leaves : decide town ("parcel" ∷ []) first_call greedy ≡ ok leaves
unfolding decide must_go can_reach location is_reachable duration ◌+ℤ◌ max_ℤ order member
greedy-leaves = refl

baselines-bound_example :
    ((not (member "parcel" waits.dispatched) || member "parcel" waits.dispatched) ≡ true)
    × ((not (member "parcel" waits.dispatched) || member "parcel" leaves.dispatched) ≡ true)
baselines-bound_example =
    baselines-bound town ("parcel" ∷ []) first_call idle waits waits leaves "parcel" lazy-waits
      idle-waits greedy-leaves
