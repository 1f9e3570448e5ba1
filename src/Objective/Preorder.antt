-- ===== src/Objective/Preorder.antt =====
-- `compare` of vrp/objective.py as an order on plans.
use osrm_microservice.Prelude.{
  arith, ◌≡◌, refl, ◌∙◌, ap, ◌⊎◌, inl, inr, Bool-cases, List, [], ◌∷◌, ℤ, pos, negsuc, pos_part,
  neg_part, ◌+ℤ◌, ◌-ℤ◌, ◌≤ℤ◌, ◌<ℤ◌, ltb_ℤ, eqb_ℤ, int_laws,
}
use osrm_microservice.Objective.{
  Tier, TierValues, ObjectiveSpec, levels, monetary, level_difference, decide, compare_levels,
  compare_values,
}

-- The differences of a level add up.
difference-add :
    (left middle right : TierValues) (ts : List Tier)
    → level_difference left right ts
      ≡ level_difference left middle ts +ℤ level_difference middle right ts
unfolding level_difference monetary
difference-add left middle right [] = unfold ◌+ℤ◌ in refl
difference-add left middle right (t ∷ ts) =
    ap (λ x. left t -ℤ right t +ℤ x) (difference-add left middle right ts)
    ∙ regroup (left t) (middle t) (right t) _ _
  where
    regroup : (a b c x y : ℤ) → (a -ℤ c) +ℤ (x +ℤ y) ≡ ((a -ℤ b) +ℤ x) +ℤ ((b -ℤ c) +ℤ y)
    regroup a b c x y = omega int_laws

-- The three outcomes at one level.
pub decide-cases :
    (d rest : ℤ)
    → ((d <ℤ pos 0) × (decide d rest ≡ negsuc 0))
      ⊎ ((d ≡ pos 0) × (decide d rest ≡ rest))
      ⊎ ((pos 0 <ℤ d) × (decide d rest ≡ pos 1))
decide-cases d rest = elim (Bool-cases (eqb_ℤ d (pos 0))) [
  | inl zero ↦ inr (inl (ground arith, rw zero refl))
  | inr n ↦ elim (Bool-cases (ltb_ℤ d (pos 0))) [
    | inl neg ↦ inl (ground arith, rw (n, neg) refl)
    | inr p ↦ inr (inr (ground arith, rw (n, p) refl))
  ]
]

-- Not worse: the level is not worse, and if it ties the levels below are not.
decide-lower : (d rest : ℤ) → decide d rest ≤ℤ pos 0 → d ≤ℤ pos 0
decide-lower d rest h = ground arith

decide-beneath : (d rest : ℤ) → decide d rest ≤ℤ pos 0 → pos 0 ≤ℤ d → rest ≤ℤ pos 0
decide-beneath d rest h tie = ground arith

decide-le : (d rest : ℤ) → d ≤ℤ pos 0 → (pos 0 ≤ℤ d → rest ≤ℤ pos 0) → decide d rest ≤ℤ pos 0
decide-le d rest low tie = elim (decide-cases d rest) [
  | inl (neg, c) ↦ rw c (omega arith)
  | inr (inl (same, c)) ↦ rw c (tie (omega (arith, ap pos_part same, ap neg_part same)))
  | inr (inr (plus, c)) ↦ absurd (omega arith)
]

levels-transitive :
    (left middle right : TierValues) (gs : List (List Tier))
    → compare_levels left middle gs ≤ℤ pos 0
    → compare_levels middle right gs ≤ℤ pos 0
    → compare_levels left right gs ≤ℤ pos 0
unfolding compare_levels
levels-transitive left middle right [] h k = omega arith
levels-transitive left middle right (g ∷ gs) h k =
    let d = level_difference left middle g in
    let e = level_difference middle right g in
    let sum = difference-add left middle right g in
    let low = decide-lower d (compare_levels left middle gs) h in
    let low' = decide-lower e (compare_levels middle right gs) k in
    let p = ap pos_part sum in
    let q = ap neg_part sum in
    decide-le (level_difference left right g) (compare_levels left right gs) (omega int_laws)
      (λ tie.
        levels-transitive left middle right gs
          (decide-beneath d (compare_levels left middle gs) h (omega int_laws))
          (decide-beneath e (compare_levels middle right gs) k (omega int_laws)))

-- For any three values: if the first is no worse than the second and the second no worse than the
-- third, then the first is no worse than the third, under the levels of every mode.
pub compare_values-transitive :
    (left middle right : TierValues) (spec : ObjectiveSpec)
    → compare_values left middle spec ≤ℤ pos 0
    → compare_values middle right spec ≤ℤ pos 0
    → compare_values left right spec ≤ℤ pos 0
unfolding compare_values
compare_values-transitive left middle right spec h k =
    levels-transitive left middle right (levels spec) h k

difference-swap :
    (left right : TierValues) (ts : List Tier)
    → level_difference right left ts ≡ pos 0 -ℤ level_difference left right ts
unfolding level_difference monetary
difference-swap left right [] = unfold ◌-ℤ◌ in refl
difference-swap left right (t ∷ ts) =
    ap (λ x. right t -ℤ left t +ℤ x) (difference-swap left right ts)
    ∙ swap_parts (left t) (right t) _
  where
    swap_parts : (a b x : ℤ) → (b -ℤ a) +ℤ (pos 0 -ℤ x) ≡ pos 0 -ℤ ((a -ℤ b) +ℤ x)
    swap_parts a b x = omega int_laws

decide-swap : (d rest : ℤ) → decide (pos 0 -ℤ d) (pos 0 -ℤ rest) ≡ pos 0 -ℤ decide d rest
decide-swap d rest = elim (decide-cases d rest) [
  | inl (neg, c) ↦ elim (decide-cases (pos 0 -ℤ d) (pos 0 -ℤ rest)) [
    | inl (n, c') ↦ absurd (omega int_laws)
    | inr (inl (n, c')) ↦ absurd (omega (int_laws, ap pos_part n, ap neg_part n))
    | inr (inr (n, c')) ↦ rw (c, c') (unfold ◌-ℤ◌ in refl)
  ]
  | inr (inl (same, c)) ↦ elim (decide-cases (pos 0 -ℤ d) (pos 0 -ℤ rest)) [
    | inl (n, c') ↦ absurd (omega (int_laws, ap pos_part same, ap neg_part same))
    | inr (inl (n, c')) ↦ rw (c, c') refl
    | inr (inr (n, c')) ↦ absurd (omega (int_laws, ap pos_part same, ap neg_part same))
  ]
  | inr (inr (plus, c)) ↦ elim (decide-cases (pos 0 -ℤ d) (pos 0 -ℤ rest)) [
    | inl (n, c') ↦ rw (c, c') (unfold ◌-ℤ◌ in refl)
    | inr (inl (n, c')) ↦ absurd (omega (int_laws, ap pos_part n, ap neg_part n))
    | inr (inr (n, c')) ↦ absurd (omega int_laws)
  ]
]

levels-swap :
    (left right : TierValues) (gs : List (List Tier))
    → compare_levels right left gs ≡ pos 0 -ℤ compare_levels left right gs
unfolding compare_levels
levels-swap left right [] = unfold ◌-ℤ◌ in refl
levels-swap left right (g ∷ gs) =
    rw (difference-swap left right g, levels-swap left right gs)
      (decide-swap (level_difference left right g) (compare_levels left right gs))

-- Comparing two values the other way round gives the opposite answer, under the levels of every mode.
pub compare_values-swap :
    (left right : TierValues) (spec : ObjectiveSpec)
    → compare_values right left spec ≡ pos 0 -ℤ compare_values left right spec
unfolding compare_values
compare_values-swap left right spec = levels-swap left right (levels spec)
