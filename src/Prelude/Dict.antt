-- ===== src/Prelude/Dict.antt =====
-- Python's dicts and sets with text keys: association lists, read at the first entry of a key, and
-- lists read by membership.
use osrm_microservice.Prelude.Tests.{if◌then◌else◌, Bool-cases}
use osrm_microservice.Prelude.Lists.{All}
use text.Mathlib.TextEquality.{eq_iff}
use text.Mathlib.TextPositions.{eq_refl}
use mathlib.Core.Path.{◌≡◌, refl, sym, subst}
use mathlib.Core.Logic.{inl, inr}
use osrm_microservice.Prelude.Int.{ℤ, pos, ◌+ℤ◌}
use Prim.Native.String.{String}
use text.Mathlib.Text.{◌==◌ as str_eq}
use mathlib.Core.Bool.{Bool, true, false, ◌||◌, ◌&&◌}
use mathlib.Core.Option.{Option, none, some}
use mathlib.Core.List.{List, [], ◌∷◌}

module _ {ℓ} {V : Type ℓ} where
  unfoldable pub insert : String → V → List (String × V) → List (String × V)
  insert key value [] = (key, value) ∷ []
  insert key value (entry ∷ rest) =
      if str_eq entry.0 key then (key, value) ∷ rest else entry ∷ insert key value rest

  unfoldable pub lookup : String → List (String × V) → Option V
  lookup key [] = none
  lookup key (entry ∷ rest) = if str_eq entry.0 key then some entry.1 else lookup key rest

-- `m.get(k, 0)`
unfoldable pub amount : String → List (String × ℤ) → ℤ
unfolding lookup
amount k m = elim (lookup k m) [ some v ↦ v | none ↦ pos 0 ]

-- `sum(m.values())`
unfoldable pub total : List (String × ℤ) → ℤ
total [] = pos 0
total ((k, v) ∷ m) = v +ℤ total m

-- `k in s`, and `s <= t`
unfoldable pub member : String → List String → Bool
member k [] = false
member k (j ∷ s) = str_eq j k || member k s

unfoldable pub is_subset : List String → List String → Bool
unfolding member
is_subset [] t = true
is_subset (k ∷ s) t = member k t && is_subset s t

-- No text stands twice: `len(set(s)) == len(s)`.
unfoldable pub all_distinct : List String → Bool
unfolding member
all_distinct [] = true
all_distinct (k ∷ s) = if member k s then false else all_distinct s

-- Reading a key after one was written.
module _ {ℓ} {V : Type ℓ} where
  lookup-cons :
      (i k : String) (v : V) (m : List (String × V))
      → lookup i ((k, v) ∷ m) ≡ (if str_eq k i then some v else lookup i m)
  unfolding lookup
  lookup-cons i k v m = refl

  pub lookup-insert-same :
      (k : String) (v : V) (m : List (String × V)) → lookup k (insert k v m) ≡ some v
  unfolding insert
  lookup-insert-same k v [] = rw (lookup-cons k k v [], eq_refl k) refl
  lookup-insert-same k v (e ∷ m) = elim (Bool-cases (str_eq e.0 k)) [
    | inl same ↦ rw (same, lookup-cons k k v m, eq_refl k) refl
    | inr other ↦ rw (other, lookup-cons k e.0 e.1 (insert k v m), other) (lookup-insert-same k v m)
  ]

  pub lookup-insert-other :
      (i k : String) (v : V) (m : List (String × V))
      → str_eq k i ≡ false
      → lookup i (insert k v m) ≡ lookup i m
  unfolding insert
  lookup-insert-other i k v [] n = rw (lookup-cons i k v [], n) (unfold lookup in refl)
  lookup-insert-other i k v (e ∷ m) n = elim (Bool-cases (str_eq e.0 k)) [
    | inl same ↦
        let skip : str_eq e.0 i ≡ false =
          subst (λ x. str_eq x i ≡ false) (sym ((eq_iff e.0 k).0 same)) n in
        rw (same, lookup-cons i k v m, n, lookup-cons i e.0 e.1 m, skip) refl
    | inr other ↦
        rw
          (
            other,
            lookup-cons i e.0 e.1 (insert k v m),
            lookup-cons i e.0 e.1 m,
            lookup-insert-other i k v m n,
          )
          refl
  ]

  -- What holds for every entry holds for one that is found.
  pub lookup-All {κ} :
      (P : String × V → Type κ) (i : String) (v : V) (m : List (String × V))
      → All P m
      → lookup i m ≡ some v
      → P (i, v)
  lookup-All P i v [] all h = absurd (nothing_found (unfold lookup in h))
    where
      nothing_found : ◌≡◌ {A = Option V} none (some v) → ⊥
      nothing_found e = cc
  lookup-All P i v (e ∷ m) all h = elim (Bool-cases (str_eq e.0 i)) [
    | inl same ↦
        let found : e.1 ≡ v = injective (rw (lookup-cons i e.0 e.1 m, same) at h) in
        subst (λ x. P (x, v)) ((eq_iff e.0 i).0 same) (subst (λ x. P (e.0, x)) found all.0)
    | inr other ↦ lookup-All P i v m all.1 (rw (lookup-cons i e.0 e.1 m, other) at h)
  ]
    where
      injective : {a b : V} → some a ≡ some b → a ≡ b
      injective e = cc
