-- ===== src/Model/Matrix.antt =====
-- `TravelMatrix` of vrp/model.py. A pair that no route connects holds -1, and reading it raises.
pub mod Cells
use Prim.Native.Char.{code}
use osrm_microservice.Prelude.{
  ℕ, leb, Bool, true, false, ◌&&◌, ◌||◌, ◌==◌, not, Option, none, some, List, [], ◌∷◌, all, length,
  get_elem?, if◌then◌else◌, String, ℤ, pos, negsuc, leb_ℤ, eqb_ℤ, max_ℤ, Result, ok, err,
  validation_error, unreachable_arc, index_error, require, or_raise, ◌>>=◌, ◌>>◌,
}
use osrm_microservice.Model.Stop.{is_given}

-- `UNREACHABLE`
abbrev pub unreachable : ℤ
unreachable = negsuc 0

abbrev pub Grid : Type 0
Grid = List (List ℤ)

pub record TravelMatrix : Type 0 where
  pub version : String
  pub durations : Grid
  pub distances : Grid
  pub degraded : Option String

legal_cell : ℤ → Bool
legal_cell c = leb_ℤ (pos 0) c || eqb_ℤ c unreachable

-- One grid: `size` rows of `size` legal cells.
unfoldable pub square : ℕ → Grid → Bool
unfolding legal_cell
square n g = (length g == n) && all (λ row. (length row == n) && all legal_cell row) g

-- The code points that `str.strip` drops.
is_blank : ℕ → Bool
is_blank c =
    (leb 9 c && leb c 13)
    || (leb 28 c && leb c 32)
    || (c == 133)
    || (c == 160)
    || (c == 5760)
    || (leb 8192 c && leb c 8202)
    || (c == 8232)
    || (c == 8233)
    || (c == 8239)
    || (c == 8287)
    || (c == 12288)

-- `bool(text.strip())`
unfoldable pub says_something : String → Bool
unfolding is_blank
says_something String.[] = false
says_something (String.◌∷◌ c text) = not (is_blank (code c)) || says_something text

abbrev says_why : Option String → Bool
says_why none = true
says_why (some reason) = says_something reason

-- `TravelMatrix.__post_init__`
unfoldable pub check_matrix : TravelMatrix → Result TravelMatrix
unfolding square
check_matrix m = do
  require (is_given m.version) validation_error
  require (says_why m.degraded) validation_error
  require (square (length m.durations) m.durations) validation_error
  require (square (length m.durations) m.distances) validation_error
  ok m

unfoldable pub size : TravelMatrix → ℕ
size m = length m.durations

-- `max(row)` of a row that is not empty, and `max(..., default=0)` over the rows.
row_max : List ℤ → ℤ
row_max [] = pos 0
row_max (c ∷ []) = c
row_max (c ∷ d ∷ cs) = max_ℤ c (row_max (d ∷ cs))

abbrev rows_max : Grid → ℤ
rows_max [] = pos 0
rows_max (r ∷ []) = row_max r
rows_max (r ∷ s ∷ rs) = max_ℤ (row_max r) (rows_max (s ∷ rs))

unfoldable pub extremes : TravelMatrix → ℤ × ℤ
unfolding row_max
extremes m = (rows_max m.distances, rows_max m.durations)

raw_cell : Grid → ℕ → ℕ → Result ℤ
raw_cell g origin destination = do
  row ← or_raise (get_elem? g origin) index_error
  or_raise (get_elem? row destination) index_error

-- `_cell`
unfoldable pub cell : Grid → ℕ → ℕ → Result ℤ
unfolding raw_cell
cell g origin destination = do
  value ← raw_cell g origin destination
  if eqb_ℤ value unreachable then err unreachable_arc else ok value

unfoldable pub duration : TravelMatrix → ℕ → ℕ → Result ℤ
unfolding cell
duration m = cell m.durations

unfoldable pub distance : TravelMatrix → ℕ → ℕ → Result ℤ
unfolding cell
distance m = cell m.distances

unfoldable pub is_reachable : TravelMatrix → ℕ → ℕ → Result Bool
unfolding raw_cell
is_reachable m origin destination = do
  value ← raw_cell m.durations origin destination
  ok (not (eqb_ℤ value unreachable))
