-- ===== src/TimeDependent/Fifo.antt =====
-- Departures compared, and the lower bound of vrp/timedependent.py.
use osrm_microservice.Prelude.{
  ℕ, zero, suc, ◌+◌, ◌*◌, ◌<◌, ◌≤◌, ◌≡◌, sym, subst, ◌∙◌, ok-injective, arith, List, [], ◌∷◌,
  get_or, ◌⊎◌, inl, inr, ceil_div_least, gap, gap_lem, ℤ, pos, negsuc, ◌+ℤ◌, ◌≤ℤ◌, int_laws, ok,
}
use osrm_microservice.TimeDependent.{
  SpeedProfile, IsProfile, ppt, maximum, multiplier_at, bucket_index, fastest_ppt, travel, arrival,
  fastest_possible,
}
use osrm_microservice.TimeDependent.Seconds.{
  covered, IsFirst, covered-add, travel-IsFirst, multiplier_at-pos,
}

-- Later by `k`: what the later departure covers, the earlier one has covered too.
IsFirst-later :
    (p : SpeedProfile) (d : ℕ) (c : ℤ) (k t t' : ℕ)
    → IsFirst p d c t
    → IsFirst p d (c +ℤ pos k) t'
    → t ≤ k + t'
IsFirst-later p d c k t t' first later = elim (le_or_lt t (k + t')) [
  | inl le ↦ le
  | inr lt ↦ absurd (omega (arith, first.before (k + t') lt, covered-add p c k t', later.enough))
]
  where
    le_or_lt : (a b : ℕ) → (a ≤ b) ⊎ (b < a)
    le_or_lt a b = omega arith

pub travel-IsFirst_found :
    (p : SpeedProfile) (n : ℕ) (depart : ℤ) {t : ℕ}
    → IsProfile p
    → travel (pos n) depart p ≡ ok t
    → IsFirst p (n * ppt) depart t
travel-IsFirst_found p n depart v e =
    let (t, same, first) = travel-IsFirst p n depart v in
    subst (IsFirst p (n * ppt) depart) (ok-injective (sym same ∙ e)) first

-- For a profile that was constructed, and the same arc driven from two departures, of which one is
-- not before the other: both arrivals are returned, and the later departure does not arrive earlier.
pub arrival-fifo :
    (p : SpeedProfile) (n : ℕ) (depart later : ℤ)
    → IsProfile p
    → depart ≤ℤ later
    → (a b : ℤ) × (arrival (pos n) depart p ≡ ok a) × (arrival (pos n) later p ≡ ok b) × (a ≤ℤ b)
unfolding arrival
arrival-fifo p n depart later v h =
    let (t, same, first) = travel-IsFirst p n depart v in
    let (t', same', first') = travel-IsFirst p n later v in
    (
      depart +ℤ pos t,
      later +ℤ pos t',
      rw same,
      rw same',
      omega (
        int_laws,
        h,
        IsFirst-later p (n * ppt) depart (gap depart later) t t' first
            (subst (λ c. IsFirst p (n * ppt) c t') (gap_lem depart later h) first'),
      ),
    )

get_or-le-maximum : (xs : List ℕ) (i : ℕ) → get_or xs i 0 ≤ maximum xs
get_or-le-maximum [] i = omega arith
get_or-le-maximum (x ∷ xs) zero = omega arith
get_or-le-maximum (x ∷ xs) (suc i) = omega (arith, get_or-le-maximum xs i)

covered-le : (p : SpeedProfile) (c : ℤ) (n : ℕ) → covered p c n ≤ n * fastest_ppt p
unfolding covered multiplier_at fastest_ppt
covered-le p c zero = omega arith
covered-le p c (suc n) =
    omega
      (arith, covered-le p c n, get_or-le-maximum p.multipliers_ppt (bucket_index p (c +ℤ pos n)))

fastest_ppt-pos : (p : SpeedProfile) → IsProfile p → 0 < fastest_ppt p
unfolding multiplier_at fastest_ppt
fastest_ppt-pos p v = omega (
  arith,
  multiplier_at-pos p v (pos 0),
  get_or-le-maximum p.multipliers_ppt (bucket_index p (pos 0)),
)

-- For a profile that was constructed, whatever the free-flow duration and the departure: where
-- `travel` returns, it returns at least `fastest_possible`.
pub fastest_possible-le-travel :
    (p : SpeedProfile) (free_flow depart : ℤ) (t : ℕ)
    → IsProfile p
    → travel free_flow depart p ≡ ok t
    → fastest_possible free_flow p ≤ t
unfolding fastest_possible
fastest_possible-le-travel p (negsuc n) depart t v e = omega arith
fastest_possible-le-travel p (pos n) depart t v e =
    let least =
      ceil_div_least (n * ppt) (fastest_ppt p) t (fastest_ppt-pos p v)
        (omega (arith, (travel-IsFirst_found p n depart v e).enough, covered-le p depart t)) in
    ground (arith, least)
