-- ===== src/Evaluator/Load/Amounts.antt =====
-- The dicts of quantities that `build_timeline` (vrp/evaluator.py) keeps, read and written by key.
use osrm_microservice.Prelude.{
  arith, ◌≡◌, refl, sym, subst, true, false, Bool-cases, inl, inr, [], ◌∷◌, map, All, if◌then◌else◌,
  String, str_eq, eq_iff, eq_refl, lookup, insert, amount, member, all_distinct, ℤ, pos, ◌≤ℤ◌,
}
use osrm_microservice.Model.Stop.{Quantities}

-- A dict of quantities: no key stands twice, and none is negative.
pub record IsSound (q : Quantities) : Type 0 where
  pub distinct : all_distinct (map (λ e. e.0) q) ≡ true
  pub not_negative : All (λ e. pos 0 ≤ℤ e.1) q

-- The load holds at least so much of each dimension, and in each of its entries.
pub record Holds (f : String → ℤ) (load : Quantities) : Type 0 where
  pub amounts : (k : String) → f k ≤ℤ amount k load
  pub entries : All (λ e. f e.0 ≤ℤ e.1) load

pub amount-cons :
    (k j : String) (x : ℤ) (q : Quantities)
    → amount k ((j, x) ∷ q) ≡ (if str_eq j k then x else amount k q)
unfolding amount lookup
amount-cons k j x q = elim (Bool-cases (str_eq j k)) [
  | inl e ↦ rw (e, amount, lookup) refl
  | inr e ↦ rw (e, amount, lookup) refl
]

pub amount-same : (k : String) (x : ℤ) (q : Quantities) → amount k ((k, x) ∷ q) ≡ x
amount-same k x q = rw (amount-cons k k x q, eq_refl k) refl

pub amount-other :
    (k j : String) (x : ℤ) (q : Quantities)
    → str_eq j k ≡ false
    → amount k ((j, x) ∷ q) ≡ amount k q
amount-other k j x q e = rw (amount-cons k j x q, e) refl

pub true_is_not_false : true ≡ false → ⊥
true_is_not_false e = cc

pub amount-absent :
    (k : String) (q : Quantities) → member k (map (λ e. e.0) q) ≡ false → amount k q ≡ pos 0
unfolding member
amount-absent k [] h = unfold amount lookup in refl
amount-absent k ((j, x) ∷ q) h = elim (Bool-cases (str_eq j k)) [
  | inl e ↦ absurd (true_is_not_false (rw e at h))
  | inr e ↦ rw (amount-other k j x q e) (amount-absent k q (rw e at h))
]

amount-insert-same : (k : String) (x : ℤ) (q : Quantities) → amount k (insert k x q) ≡ x
unfolding insert
amount-insert-same k x [] = amount-same k x []
amount-insert-same k x ((j, y) ∷ q) = elim (Bool-cases (str_eq j k)) [
  | inl e ↦ rw (e, amount-same k x q) refl
  | inr e ↦ rw (e, amount-other k j y (insert k x q) e) (amount-insert-same k x q)
]

same_key : (j k i : String) → str_eq j k ≡ true → str_eq k i ≡ false → str_eq j i ≡ false
same_key j k i e n = subst (λ x. str_eq x i ≡ false) (sym ((eq_iff j k).0 e)) n

amount-insert-other :
    (i k : String) (x : ℤ) (q : Quantities)
    → str_eq k i ≡ false
    → amount i (insert k x q) ≡ amount i q
unfolding insert
amount-insert-other i k x [] n = amount-other i k x [] n
amount-insert-other i k x ((j, y) ∷ q) n = elim (Bool-cases (str_eq j k)) [
  | inl e ↦ rw (e, amount-other i k x q n, amount-other i j y q (same_key j k i e n)) refl
  | inr e ↦
      rw (e, amount-cons i j y (insert k x q), amount-cons i j y q, amount-insert-other i k x q n)
        refl
]

-- Writing one dimension keeps a lower bound that the written value meets.
module _ (f g : String → ℤ) (k : String) (x : ℤ) (below : (j : String) → g j ≤ℤ f j)
    (meets : g k ≤ℤ x) where
  pub weaker : (q : Quantities) → All (λ e. f e.0 ≤ℤ e.1) q → All (λ e. g e.0 ≤ℤ e.1) q
  weaker [] h = tt
  weaker (e ∷ q) h = (omega (arith, below e.0, h.0), weaker q h.1)

  insert-entries :
      (q : Quantities) → All (λ e. f e.0 ≤ℤ e.1) q → All (λ e. g e.0 ≤ℤ e.1) (insert k x q)
  unfolding insert
  insert-entries [] h = (meets, tt)
  insert-entries (e ∷ q) h = elim (Bool-cases (str_eq e.0 k)) [
    | inl same ↦ rw same (meets, weaker q h.1)
    | inr other ↦ rw other (omega (arith, below e.0, h.0), insert-entries q h.1)
  ]

  insert-amounts :
      (q : Quantities)
      → ((j : String) → f j ≤ℤ amount j q)
      → (j : String) → g j ≤ℤ amount j (insert k x q)
  insert-amounts q h j = elim (Bool-cases (str_eq k j)) [
    | inl e ↦
        subst (λ (i : String). g i ≤ℤ amount i (insert k x q)) ((eq_iff k j).0 e)
          (rw (amount-insert-same k x q) meets)
    | inr e ↦ rw (amount-insert-other j k x q e) (omega (arith, below j, h j))
  ]

  pub insert-Holds : (q : Quantities) → Holds f q → Holds g (insert k x q)
  insert-Holds q h = record {
    amounts = insert-amounts q h.amounts;
    entries = insert-entries q h.entries;
  }
