-- ===== src/Objective/Total.antt =====
-- The scaled total of vrp/objective.py against the comparison level by level.
use osrm_microservice.Prelude.{
  arith, ℕ, ◌+◌, ◌*◌, ◌≤◌, ◌<◌, ◌≡◌, refl, ◌∙◌, ap, ◌⊎◌, inl, inr, List, [], ◌∷◌, ◌++◌, map, ℤ, pos,
  negsuc, pos_part, neg_part, ◌+ℤ◌, ◌-ℤ◌, ◌*ℤ◌, ◌≤ℤ◌, ◌<ℤ◌, max_ℤ, max_ℤ_le, int_laws, +ℤ-pos,
  *ℤ-pos, sum_of,
}
use osrm_microservice.Model.Problem.{Problem}
use osrm_microservice.Objective.{
  Tier, TierValues, ObjectiveSpec, levels, scaled_levels, monetary, level_difference,
  compare_levels, compare_values, total_of,
}
use osrm_microservice.Objective.Preorder.{decide-cases}
use osrm_microservice.Objective.Bounds.{operating_bound, tier_bounds, tier_scales}

-- The sign of a comparison is that of two totals.
abbrev pub Agreement : ℤ → ℤ → ℤ → Type 0
Agreement c a b = ((c ≡ negsuc 0) × (a <ℤ b)) ⊎ ((c ≡ pos 0) × (a ≡ b)) ⊎ ((c ≡ pos 1) × (b <ℤ a))

abbrev sum_ℕ : (Tier → ℕ) → List Tier → ℕ
sum_ℕ f [] = 0
sum_ℕ f (t ∷ ts) = f t + sum_ℕ f ts

-- Values that are not negative, as native numbers.
abbrev Counts : TierValues → (Tier → ℕ) → Type 0
Counts values f = (t : Tier) → values t ≡ pos (f t)

sum-Counts :
    (values : TierValues) (f : Tier → ℕ) (ts : List Tier)
    → Counts values f
    → sum_of values ts ≡ pos (sum_ℕ f ts)
sum-Counts values f [] c = refl
sum-Counts values f (t ∷ ts) c = rw (c t, sum-Counts values f ts c) (+ℤ-pos (f t) (sum_ℕ f ts))

sum_scaled :
    (values : TierValues) (f : Tier → ℕ) (s : ℕ) (ts : List Tier)
    → Counts values f
    → sum_of (λ t. values t *ℤ pos s) ts ≡ pos (sum_ℕ f ts * s)
sum_scaled values f s [] c = ap pos (omega arith)
sum_scaled values f s (t ∷ ts) c =
    rw (c t, sum_scaled values f s ts c, *ℤ-pos (f t) s)
      (+ℤ-pos (f t * s) (sum_ℕ f ts * s) ∙ ap pos (grind arith))

difference-Counts :
    (left right : TierValues) (l r : Tier → ℕ) (ts : List Tier)
    → Counts left l
    → Counts right r
    → level_difference left right ts ≡ pos (sum_ℕ l ts) -ℤ pos (sum_ℕ r ts)
unfolding level_difference monetary
difference-Counts left right l r [] cl cr = unfold ◌-ℤ◌ in refl
difference-Counts left right l r (t ∷ ts) cl cr =
    rw (cl t, cr t, difference-Counts left right l r ts cl cr)
      (add_differences (l t) (r t) (sum_ℕ l ts) (sum_ℕ r ts))
  where
    add_differences :
        (a b c d : ℕ) → (pos a -ℤ pos b) +ℤ (pos c -ℤ pos d) ≡ pos (a + c) -ℤ pos (b + d)
    add_differences a b c d = omega int_laws

sum_append :
    {A : Type 0} (f : A → ℤ) (xs ys : List A) → sum_of f (xs ++ ys) ≡ sum_of f xs +ℤ sum_of f ys
sum_append f [] ys = omega int_laws
sum_append f (x ∷ xs) ys =
    ap (λ s. f x +ℤ s) (sum_append f xs ys) ∙ regroup (f x) (sum_of f xs) (sum_of f ys)
  where
    regroup : (a b c : ℤ) → a +ℤ (b +ℤ c) ≡ a +ℤ b +ℤ c
    regroup a b c = omega int_laws

sum_map :
    (values : TierValues) (s : ℤ) (ts : List Tier)
    → sum_of (λ (x : Tier × ℤ). values x.0 *ℤ x.1) (map (λ t. (t, s)) ts)
      ≡ sum_of (λ t. values t *ℤ s) ts
sum_map values s [] = refl
sum_map values s (t ∷ ts) = ap (λ x. values t *ℤ s +ℤ x) (sum_map values s ts)

module _ (b : Tier → ℕ) where
  -- The most that some levels reach, and what some values come to.
  reach : List (List Tier) → ℕ
  reach [] = 0
  reach (g ∷ gs) = reach gs + sum_ℕ b g * (reach gs + 1)

  weigh : (Tier → ℕ) → List (List Tier) → ℕ
  unfolding reach
  weigh v [] = 0
  weigh v (g ∷ gs) = sum_ℕ v g * (reach gs + 1) + weigh v gs

  module _ (bounds : TierValues) (cb : Counts bounds b) where
    beneath-reach : (gs : List (List Tier)) → (scaled_levels bounds gs).beneath ≡ pos (reach gs)
    unfolding scaled_levels reach monetary
    beneath-reach [] = refl
    beneath-reach (g ∷ gs) =
        rw (beneath-reach gs, +ℤ-pos (reach gs) 1, sum_scaled bounds b (reach gs + 1) g cb)
          (+ℤ-pos (reach gs) (sum_ℕ b g * (reach gs + 1)))

    total-weigh :
        (values : TierValues) (v : Tier → ℕ) (gs : List (List Tier))
        → Counts values v
        → total_of values (scaled_levels bounds gs).scales ≡ pos (weigh v gs)
    unfolding total_of scaled_levels weigh
    total-weigh values v [] c = refl
    total-weigh values v (g ∷ gs) c =
        sum_append (λ (x : Tier × ℤ). values x.0 *ℤ x.1)
          (map (λ t. (t, (scaled_levels bounds gs).beneath +ℤ pos 1)) g)
          (scaled_levels bounds gs).scales
        ∙ rw
            (
              total-weigh values v gs c,
              sum_map values ((scaled_levels bounds gs).beneath +ℤ pos 1) g,
              beneath-reach gs,
              +ℤ-pos (reach gs) 1,
              sum_scaled values v (reach gs + 1) g c,
            )
            (+ℤ-pos (sum_ℕ v g * (reach gs + 1)) (weigh v gs))

  sum_le : (v : Tier → ℕ) (ts : List Tier) → ((t : Tier) → v t ≤ b t) → sum_ℕ v ts ≤ sum_ℕ b ts
  sum_le v [] h = omega arith
  sum_le v (t ∷ ts) h = omega (arith, h t, sum_le v ts h)

  times_le : (x y s : ℕ) → x ≤ y → x * s ≤ y * s
  times_le x y s h = grind arith

  weigh_le :
      (v : Tier → ℕ) (gs : List (List Tier)) → ((t : Tier) → v t ≤ b t) → weigh v gs ≤ reach gs
  unfolding weigh reach
  weigh_le v [] h = omega arith
  weigh_le v (g ∷ gs) h =
      omega (arith, weigh_le v gs h, times_le (sum_ℕ v g) (sum_ℕ b g) (reach gs + 1) (sum_le v g h))

  step_up : (x y s : ℕ) → x < y → x * s + s ≤ y * s
  step_up x y s h = grind arith

  -- A lower level never makes up for a higher one.
  dominates :
      (x y top : ℕ) (low high : ℕ) → x < y → low ≤ top → x * (top + 1) + low < y * (top + 1) + high
  dominates x y top low high h le = omega (arith, step_up x y (top + 1) h)

  module _ (left right : TierValues) (l r : Tier → ℕ) (cl : Counts left l) (cr : Counts right r)
      (lb : (t : Tier) → l t ≤ b t) (rb : (t : Tier) → r t ≤ b t) where
    levels-Agreement :
        (gs : List (List Tier))
        → Agreement (compare_levels left right gs) (pos (weigh l gs)) (pos (weigh r gs))
    unfolding compare_levels weigh
    levels-Agreement [] = inr (inl (refl, refl))
    levels-Agreement (g ∷ gs) =
        let d = difference-Counts left right l r g cl cr in
        let p = ap pos_part d in
        let q = ap neg_part d in
        elim (decide-cases (level_difference left right g) (compare_levels left right gs)) [
          | inl (neg, c) ↦ inl (
            c,
            omega (
              arith,
              dominates (sum_ℕ l g) (sum_ℕ r g) (reach gs) (weigh l gs) (weigh r gs)
                  (omega int_laws) (weigh_le l gs lb),
            ),
          )
          | inr (inr (plus, c)) ↦ inr (
              inr (
                c,
                omega (
                  arith,
                  dominates (sum_ℕ r g) (sum_ℕ l g) (reach gs) (weigh r gs) (weigh l gs)
                      (omega int_laws) (weigh_le r gs rb),
                ),
              ))
          | inr (inl (same, c)) ↦
              let tie : sum_ℕ l g ≡ sum_ℕ r g =
                omega (int_laws, ap pos_part same, ap neg_part same) in
              rw (c, tie) (below (sum_ℕ r g * (reach gs + 1)) _ _ _ (levels-Agreement gs))
        ]
      where
        below :
            (k : ℕ) (c : ℤ) (x y : ℕ)
            → Agreement c (pos x) (pos y)
            → Agreement c (pos (k + x)) (pos (k + y))
        below k c x y (inl (e, lt)) = inl (e, omega arith)
        below k c x y (inr (inl (e, same))) = inr (inl (e, ap (λ n. pos (k + pos_part n)) same))
        below k c x y (inr (inr (e, gt))) = inr (inr (e, omega arith))

-- A value that is not negative is a native number.
counted : (a : ℤ) → pos 0 ≤ℤ a → a ≡ pos (pos_part a)
counted a h = ground arith

part_le : (a b : ℤ) → pos 0 ≤ℤ a → a ≤ℤ b → pos_part a ≤ pos_part b
part_le a b h k = ground arith

at_least : (a b : ℤ) → pos 0 ≤ℤ b → pos 0 ≤ℤ max_ℤ a b
at_least a b h = omega (arith, max_ℤ_le a b)

tier_bounds-not_negative :
    (p : Problem) (spec : ObjectiveSpec) (t : Tier) → pos 0 ≤ℤ tier_bounds p spec t
unfolding tier_bounds operating_bound
tier_bounds-not_negative p spec Tier.hard = at_least _ _ (omega arith)
tier_bounds-not_negative p spec Tier.unserved_p0 = at_least _ _ (omega arith)
tier_bounds-not_negative p spec Tier.unserved = at_least _ _ (at_least _ _ (omega arith))
tier_bounds-not_negative p spec Tier.fleet =
    at_least _ _ (at_least _ _ (at_least _ _ (omega arith)))
tier_bounds-not_negative p spec Tier.operating = at_least _ _ (at_least _ _ (omega arith))
tier_bounds-not_negative p spec Tier.soft = at_least _ _ (omega arith)
tier_bounds-not_negative p spec Tier.quality =
    at_least _ _ (at_least _ _ (at_least _ _ (omega arith)))

-- Every tier is neither negative nor above its bound.
abbrev pub InBounds : Problem → ObjectiveSpec → TierValues → Type 0
InBounds p spec values = (t : Tier) → (pos 0 ≤ℤ values t) × (values t ≤ℤ tier_bounds p spec t)

-- For two values whose tiers are not negative and within their bounds on the instance: comparing them
-- level by level and comparing the two scaled totals give the same answer, in every mode: the better
-- one has the lower total, and a tie is a tie.
pub total_of-Agreement :
    (p : Problem) (spec : ObjectiveSpec) (left right : TierValues)
    → InBounds p spec left
    → InBounds p spec right
    → Agreement
        (compare_values left right spec)
        (total_of left (tier_scales p spec))
        (total_of right (tier_scales p spec))
unfolding compare_values tier_scales
total_of-Agreement p spec left right hl hr =
    let bounds = tier_bounds p spec in
    let b : Tier → ℕ = λ t. pos_part (bounds t) in
    let l : Tier → ℕ = λ t. pos_part (left t) in
    let r : Tier → ℕ = λ t. pos_part (right t) in
    let cb : Counts bounds b = λ t. counted (bounds t) (tier_bounds-not_negative p spec t) in
    let cl : Counts left l = λ t. counted (left t) (hl t).0 in
    let cr : Counts right r = λ t. counted (right t) (hr t).0 in
    let agreed =
      levels-Agreement b left right l r cl cr (λ t. part_le (left t) (bounds t) (hl t).0 (hl t).1)
        (λ t. part_le (right t) (bounds t) (hr t).0 (hr t).1) (levels spec) in
    rw
      (
        total-weigh b bounds cb left l (levels spec) cl,
        total-weigh b bounds cb right r (levels spec) cr,
      )
      agreed
