-- ===== src/Model/Matrix/Cells.antt =====
-- The cells that `TravelMatrix` of vrp/model.py hands out.
use osrm_microservice.Prelude.{
  ℕ, zero, suc, ◌<◌, ◌≡◌, refl, arith, ◌⊎◌, inl, inr, Bool, true, false, ◌&&◌, ◌==◌, ==-true→eq,
  some, List, [], ◌∷◌, length, get_elem?, all, ℤ, pos, negsuc, ok, err, unreachable_arc,
}
use osrm_microservice.Model.Matrix.{
  TravelMatrix, Grid, square, legal_cell, check_matrix, size, raw_cell, cell, duration, distance,
  is_reachable, unreachable,
}

within_all {ℓ} :
    {A : Type ℓ} (test : A → Bool) (xs : List A) (i : ℕ)
    → all test xs ≡ true
    → i < length xs
    → (x : A) × (get_elem? xs i ≡ some x) × (test x ≡ true)
within_all test [] i h lt = elim lt [ ]
within_all test (x ∷ xs) zero h lt = (x, refl, ground (arith, h))
within_all test (x ∷ xs) (suc i) h lt = within_all test xs i (ground (arith, h)) (omega arith)

is_row : ℕ → List ℤ → Bool
is_row n row = (length row == n) && all legal_cell row

and_left : (a b : Bool) → (a && b) ≡ true → a ≡ true
and_left true b h = refl
and_left false b h = h

and_right : (a b : Bool) → (a && b) ≡ true → b ≡ true
and_right true b h = h
and_right false b h = cc

raw_cell-legal :
    (n : ℕ) (g : Grid) (origin destination : ℕ)
    → square n g ≡ true
    → origin < n
    → destination < n
    → (c : ℤ) × (raw_cell g origin destination ≡ ok c) × (legal_cell c ≡ true)
unfolding square raw_cell is_row
raw_cell-legal n g origin destination h lt lt' =
    let rows = ==-true→eq (length g) n (and_left (length g == n) (all (is_row n) g) h) in
    let (row, at, fits) =
      within_all (is_row n) g origin (and_right (length g == n) (all (is_row n) g) h)
        (omega (arith, rows)) in
    let cells = ==-true→eq (length row) n (and_left (length row == n) (all legal_cell row) fits) in
    let (c, there, legal) =
      within_all legal_cell row destination (and_right (length row == n) (all legal_cell row) fits)
        (omega (arith, cells)) in
    (c, rw (at, there) refl, legal)

legal-cases : (c : ℤ) → legal_cell c ≡ true → ((n : ℕ) × (c ≡ pos n)) ⊎ (c ≡ unreachable)
unfolding legal_cell
legal-cases (pos n) h = inl (n, refl)
legal-cases (negsuc zero) h = inr refl
legal-cases (negsuc (suc n)) h = absurd (ground arith)

cell_cases :
    (g : Grid) (origin destination : ℕ) (c : ℤ)
    → raw_cell g origin destination ≡ ok c
    → legal_cell c ≡ true
    → ((n : ℕ) × (c ≡ pos n) × (cell g origin destination ≡ ok (pos n)))
      ⊎ ((c ≡ unreachable) × (cell g origin destination ≡ err unreachable_arc))
unfolding cell
cell_cases g origin destination c e legal = elim (legal-cases c legal) [
  | inl (n, same) ↦ inl (n, same, rw (e, same) (ground arith))
  | inr same ↦ inr (same, rw (e, same) refl)
]

squares :
    (m m' : TravelMatrix)
    → check_matrix m ≡ ok m'
    → (square (size m) m.durations ≡ true) × (square (size m) m.distances ≡ true)
unfolding check_matrix size
squares m m' h = (ground arith, ground arith)

-- For a matrix that passed its checks, and a pair within its size: the duration is returned, is not
-- negative and the pair is reachable, or reading it raises and the pair is not reachable. The
-- distance, too, is returned and not negative, or reading it raises: the sentinel never gets out.
pub duration-or-raise :
    (m m' : TravelMatrix) (origin destination : ℕ)
    → check_matrix m ≡ ok m'
    → origin < size m
    → destination < size m
    → (((n : ℕ) × (duration m origin destination ≡ ok (pos n))
          × (is_reachable m origin destination ≡ ok true))
        ⊎ ((duration m origin destination ≡ err unreachable_arc)
            × (is_reachable m origin destination ≡ ok false)))
      × (((n : ℕ) × (distance m origin destination ≡ ok (pos n)))
          ⊎ (distance m origin destination ≡ err unreachable_arc))
unfolding duration distance is_reachable
duration-or-raise m m' origin destination h lt lt' =
    let (durations, distances) = squares m m' h in
    let (c, e, legal) = raw_cell-legal (size m) m.durations origin destination durations lt lt' in
    let (d, e', legal') = raw_cell-legal (size m) m.distances origin destination distances lt lt' in
    (
      elim (cell_cases m.durations origin destination c e legal) [
        | inl (n, same, reads) ↦ inl (n, reads, rw (e, same) (ground arith))
        | inr (same, raises) ↦ inr (raises, rw (e, same) refl)
      ],
      elim (cell_cases m.distances origin destination d e' legal') [
        | inl (n, same, reads) ↦ inl (n, reads)
        | inr (same, raises) ↦ inr raises
      ],
    )
