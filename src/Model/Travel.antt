-- ===== src/Model/Travel.antt =====
-- `travel_between` and `profile_for_arc` of vrp/model.py.
use osrm_microservice.Prelude.{
  ℕ, Option, none, some, if◌then◌else◌, ℤ, pos, leb_ℤ, Result, ok, ◌>>=◌,
}
use osrm_microservice.TimeDependent.{SpeedProfile, arc_class_of, travel}
use osrm_microservice.Model.Matrix.{duration}
use osrm_microservice.Model.Problem.{Problem, Profiles, profile_of}

abbrev pub governing : Option Profiles → Option SpeedProfile → ℤ → Option SpeedProfile
governing (some ps) one free_flow = profile_of (arc_class_of free_flow) ps
governing none one free_flow = one

unfoldable pub profile_for_arc : Problem → ℤ → Option SpeedProfile
profile_for_arc p free_flow = governing p.speed_profiles p.speed_profile free_flow

unfoldable pub scaled : Option SpeedProfile → ℤ → ℤ → Result ℤ
scaled none free_flow depart = ok free_flow
scaled (some profile) free_flow depart =
    if leb_ℤ free_flow (pos 0)
    then ok free_flow
    else do taken ← travel free_flow depart profile; ok (pos taken)

unfoldable pub travel_between : Problem → ℕ → ℕ → ℤ → Result ℤ
unfolding scaled profile_for_arc
travel_between p origin destination depart = do
  free_flow ← duration p.matrix origin destination
  scaled (profile_for_arc p free_flow) free_flow depart
