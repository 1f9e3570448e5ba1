-- ===== src/TimeDependent/Profile.antt =====
-- The profiles that `SpeedProfile` of vrp/timedependent.py constructs.
use osrm_microservice.Prelude.{
  zero, suc, ◌<◌, ◌≡◌, refl, ap, subst, arith, Bool, false, any, if◌then◌else◌, List, [], ◌∷◌, map,
  All, ℤ, pos, negsuc, pos_part, leb_ℤ, ok, err, value_error,
}
use osrm_microservice.TimeDependent.{SpeedProfile, IsProfile, speed_profile}

positive_parts :
    (ms : List ℤ)
    → any (λ k. leb_ℤ k (pos 0)) ms ≡ false
    → All (λ m. 0 < m) (map pos_part ms) × (map pos (map pos_part ms) ≡ ms)
positive_parts [] h = (tt, refl)
positive_parts (pos zero ∷ ms) h = absurd (ground arith)
positive_parts (pos (suc n) ∷ ms) h =
    let (above, same) = positive_parts ms (ground arith) in
    ((omega arith, above), ap (λ (l : List ℤ). pos (suc n) ∷ l) same)
positive_parts (negsuc n ∷ ms) h = absurd (ground arith)

both_checks :
    (bucket : ℤ) (flat : Bool) (p q : SpeedProfile)
    → (if leb_ℤ bucket (pos 0) then err value_error else (if flat then err value_error else ok p))
      ≡ ok q
    → (flat ≡ false) × (0 < pos_part bucket) × (pos (pos_part bucket) ≡ bucket) × (p ≡ q)
both_checks (pos zero) flat p q h = absurd (ground arith)
both_checks (negsuc n) flat p q h = absurd (ground arith)
both_checks (pos (suc n)) flat p q h = (ground arith, omega arith, refl, ground arith)

-- What the constructor returns is a profile in the sense of the theorems on travel, and holds the
-- bucket and the multipliers that it was given.
pub speed_profile-IsProfile :
    (bucket : ℤ) (ms : List ℤ) {p : SpeedProfile}
    → speed_profile bucket ms ≡ ok p
    → IsProfile p × (pos p.bucket_seconds ≡ bucket) × (map pos p.multipliers_ppt ≡ ms)
unfolding speed_profile
speed_profile-IsProfile bucket [] h = cc
speed_profile-IsProfile bucket (m ∷ ms) {p} h =
    let built : SpeedProfile = record {
      bucket_seconds = pos_part bucket;
      multipliers_ppt = map pos_part (m ∷ ms);
    } in
    let (none_flat, above, same, is_built) =
      both_checks bucket (any (λ k. leb_ℤ k (pos 0)) (m ∷ ms)) built p h in
    let (parts, back) = positive_parts (m ∷ ms) none_flat in
    subst
      (λ (q : SpeedProfile).
        IsProfile q × (pos q.bucket_seconds ≡ bucket) × (map pos q.multipliers_ppt ≡ m ∷ ms))
      is_built
      (record { bucket_pos = above; some_bucket = omega arith; all_pos = parts }, same, back)
