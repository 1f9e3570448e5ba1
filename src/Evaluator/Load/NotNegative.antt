-- ===== src/Evaluator/Load/NotNegative.antt =====
-- The load that `build_timeline` (vrp/evaluator.py) carries, against what is still to deliver.
use osrm_microservice.Prelude.{
  arith, ◌≡◌, refl, sym, subst, ap, Bool, true, false, Bool-cases, inl, inr, List, [], ◌∷◌, map,
  All, if◌then◌else◌, String, str_eq, eq_iff, lookup, insert, amount, member, all_distinct, ℤ, pos,
  pos_part, neg_part, ◌+ℤ◌, ◌-ℤ◌, ◌≤ℤ◌, int_laws,
}
use osrm_microservice.Model.Stop.{Quantities}
use osrm_microservice.Model.Order.{Order, is_some}
use osrm_microservice.Evaluator.Load.{
  add_keys, dimensions_from, dimensions, to_deliver, initial_load, take_off, put_on, serve_load,
}
use osrm_microservice.Evaluator.Load.Amounts.{
  IsSound, Holds, amount-cons, amount-same, amount-other, true_is_not_false, amount-absent, weaker,
  insert-Holds,
}

split_distinct :
    (b : Bool) (rest : Bool) → (if b then false else rest) ≡ true → (b ≡ false) × (rest ≡ true)
split_distinct true rest h = cc
split_distinct false rest h = (refl, h)

tail-IsSound :
    (k : String) (x : ℤ) (q : Quantities) → IsSound ((k, x) ∷ q) → (amount k q ≡ pos 0) × IsSound q
unfolding all_distinct
tail-IsSound k x q h =
    let (fresh, distinct) =
      split_distinct (member k (map (λ e. e.0) q)) (all_distinct (map (λ e. e.0) q)) h.distinct in
    (amount-absent k q fresh, record { distinct = distinct; not_negative = h.not_negative.1 })

amount-not_negative :
    (k : String) (q : Quantities) → All (λ e. pos 0 ≤ℤ e.1) q → pos 0 ≤ℤ amount k q
amount-not_negative k [] h = unfold amount lookup in omega arith
amount-not_negative k ((j, x) ∷ q) h = rw (amount-cons k j x q) (elim (Bool-cases (str_eq j k)) [
  | inl e ↦ rw e h.0
  | inr e ↦ rw e (amount-not_negative k q h.1)
])

-- Less of one entry.
amount-tail-le :
    (k i : String) (x : ℤ) (q : Quantities)
    → pos 0 ≤ℤ x
    → amount k q ≡ pos 0
    → amount i q ≤ℤ amount i ((k, x) ∷ q)
amount-tail-le k i x q h none_left = rw (amount-cons i k x q) (elim (Bool-cases (str_eq k i)) [
  | inl e ↦ rw e (subst (λ j. amount j q ≤ℤ x) ((eq_iff k i).0 e) (rw none_left h))
  | inr e ↦ rw e (omega arith)
])

less_of : (n m l x h : ℤ) → n ≡ pos 0 → m ≡ x → m +ℤ h ≤ℤ l → n +ℤ h ≤ℤ l -ℤ x
less_of n m l x h none_left same le =
    omega
      (int_laws, ap pos_part none_left, ap neg_part none_left, ap pos_part same, ap neg_part same)

take_off-Holds :
    (h : String → ℤ) (q load : Quantities)
    → IsSound q
    → Holds (λ j. amount j q +ℤ h j) load
    → Holds h (take_off q load)
unfolding take_off
take_off-Holds h [] load sound holds = record {
  amounts = λ j. unfold amount lookup in omega (int_laws, holds.amounts j);
  entries =
      weaker (λ j. amount j [] +ℤ h j) h "" (h "") (λ j. unfold amount lookup in omega int_laws)
        (omega arith) load holds.entries;
}
take_off-Holds h ((k, x) ∷ q) load sound holds =
    let (none_left, rest) = tail-IsSound k x q sound in
    take_off-Holds h q (insert k (amount k load -ℤ x) load) rest (
      insert-Holds (λ j. amount j ((k, x) ∷ q) +ℤ h j) (λ j. amount j q +ℤ h j) k
        (amount k load -ℤ x)
        (λ j. omega (int_laws, amount-tail-le k j x q sound.not_negative.0 none_left))
        (less_of (amount k q) (amount k ((k, x) ∷ q)) (amount k load) x (h k) none_left
          (amount-same k x q) (holds.amounts k))
        load holds)

put_on-Holds :
    (h : String → ℤ) (q load : Quantities)
    → All (λ e. pos 0 ≤ℤ e.1) q
    → Holds h load
    → Holds h (put_on q load)
unfolding put_on
put_on-Holds h [] load sound holds = holds
put_on-Holds h ((k, x) ∷ q) load sound holds =
    put_on-Holds h q (insert k (amount k load +ℤ x) load) sound.1 (
      insert-Holds h h k (amount k load +ℤ x) (λ j. omega arith)
        (omega (int_laws, holds.amounts k, sound.0)) load holds)

-- What is still to deliver, of every dimension.
abbrev pub Covers : List Order → Quantities → Type 0
Covers os load = Holds (λ k. to_deliver k os) load

pub serve_load-Covers :
    (o : Order) (os : List Order) (load : Quantities)
    → IsSound o.quantities
    → Covers (o ∷ os) load
    → Covers os (serve_load o load)
unfolding serve_load to_deliver
serve_load-Covers o os load sound holds = by_stop (is_some o.delivery) holds
  where
    by_stop :
        (b : Bool)
        → Holds (λ k. if b then amount k o.quantities +ℤ to_deliver k os else to_deliver k os) load
        → Covers os (if b then take_off o.quantities load else put_on o.quantities load)
    by_stop true holds = take_off-Holds (λ k. to_deliver k os) o.quantities load sound holds
    by_stop false holds =
        put_on-Holds (λ k. to_deliver k os) o.quantities load sound.not_negative holds

to_deliver-not_negative :
    (k : String) (os : List Order)
    → All (λ (o : Order). IsSound o.quantities) os
    → pos 0 ≤ℤ to_deliver k os
unfolding to_deliver
to_deliver-not_negative k [] h = omega arith
to_deliver-not_negative k (o ∷ os) h = elim (Bool-cases (is_some o.delivery)) [
  | inl e ↦ rw e (
      omega (
        int_laws,
        amount-not_negative k o.quantities h.0.not_negative,
        to_deliver-not_negative k os h.1,
      ))
  | inr e ↦ rw e (to_deliver-not_negative k os h.1)
]

pub Covers-not_negative :
    (os : List Order) (load : Quantities)
    → All (λ (o : Order). IsSound o.quantities) os
    → Covers os load
    → All (λ e. pos 0 ≤ℤ e.1) load
Covers-not_negative os load sound holds =
    weaker (λ k. to_deliver k os) (λ k. pos 0) "" (pos 0) (λ k. to_deliver-not_negative k os sound)
      (omega arith) load holds.entries

-- The dimensions that are gathered miss no dimension of an order.
differ :
    (j k : String) (seen : List String)
    → member j seen ≡ true
    → member k seen ≡ false
    → str_eq j k ≡ false
differ j k seen e n = elim (Bool-cases (str_eq j k)) [
  | inl same ↦ absurd (
      true_is_not_false (rw n at (subst (λ i. true ≡ member i seen) ((eq_iff j k).0 same) (sym e))))
  | inr other ↦ other
]

neither :
    (j k : String) (seen : List String)
    → member k (j ∷ seen) ≡ false
    → (str_eq j k ≡ false) × (member k seen ≡ false)
unfolding member
neither j k seen h = ground arith

add_keys-absent :
    (k : String) (q : Quantities) (seen : List String)
    → member k (add_keys q seen) ≡ false
    → (member k seen ≡ false) × (amount k q ≡ pos 0)
unfolding add_keys
add_keys-absent k [] seen h = (h, unfold amount lookup in refl)
add_keys-absent k ((j, x) ∷ q) seen h =
    let (not_seen, rest) = add_keys-absent k q (if member j seen then seen else j ∷ seen) h in
    elim (Bool-cases (member j seen)) [
      | inl e ↦
          let absent = rw e at not_seen in
          (absent, rw (amount-other k j x q (differ j k seen e absent)) rest)
      | inr e ↦
          let (other, absent) = neither j k seen (rw e at not_seen) in
          (absent, rw (amount-other k j x q other) rest)
    ]

dimensions_from-absent :
    (k : String) (os : List Order) (seen : List String)
    → member k (dimensions_from os seen) ≡ false
    → (member k seen ≡ false) × (to_deliver k os ≡ pos 0)
unfolding dimensions_from to_deliver
dimensions_from-absent k [] seen h = (h, refl)
dimensions_from-absent k (o ∷ os) seen h =
    let (not_seen, rest) = dimensions_from-absent k os (add_keys o.quantities seen) h in
    let (absent, none_here) = add_keys-absent k o.quantities seen not_seen in
    (
      absent,
      elim (Bool-cases (is_some o.delivery)) [
        | inl e ↦ rw (e, none_here, rest) (unfold ◌+ℤ◌ in refl)
        | inr e ↦ rw e rest
      ],
    )

amount-map :
    (k : String) (f : String → ℤ) (ds : List String)
    → amount k (map (λ d. (d, f d)) ds) ≡ (if member k ds then f k else pos 0)
unfolding member
amount-map k f [] = unfold amount lookup in refl
amount-map k f (d ∷ ds) =
    rw (amount-cons k d (f d) (map (λ i. (i, f i)) ds)) (elim (Bool-cases (str_eq d k)) [
      | inl e ↦ rw e (ap f ((eq_iff d k).0 e))
      | inr e ↦ rw e (amount-map k f ds)
    ])

initial-entries :
    (f : String → ℤ) (ds : List String)
    → All (λ (e : String × ℤ). f e.0 ≤ℤ e.1) (map (λ d. (d, f d)) ds)
initial-entries f [] = tt
initial-entries f (d ∷ ds) = (omega arith, initial-entries f ds)

pub initial_load-Covers : (os : List Order) → Covers os (initial_load os)
unfolding initial_load dimensions
initial_load-Covers os = record {
  amounts = λ k.
      rw (amount-map k (λ d. to_deliver d os) (dimensions_from os []))
        (elim (Bool-cases (member k (dimensions_from os []))) [
          | inl e ↦ rw e (omega arith)
          | inr e ↦ rw (e, (dimensions_from-absent k os [] e).1) (omega arith)
        ]);
  entries = initial-entries (λ d. to_deliver d os) (dimensions_from os []);
}
