-- ===== src/Verify/Depots/Sweep.antt =====
-- The sweep of `_check_docks` (vrp/verify/verifier.py) over the spans at one location.
use osrm_microservice.Prelude.{
  arith, ℕ, suc, ◌≤◌, ◌≡◌, refl, subst, ◌⊎◌, inl, inr, Bool, true, false, Bool-cases, ◌||◌, [], ◌∷◌,
  All, any, ℤ, pos, ◌≤ℤ◌, leb_ℤ, ltb_ℤ,
}
use osrm_microservice.Verify.Depots.{Spans, covers, at_bay, is_crowded}

Begins : ℤ → Spans → Type 0
Begins b [] = ⊥
Begins b (span ∷ spans) = (span.0 ≡ b) ⊎ Begins b spans

-- No span that covers the instant begins later.
abbrev NoneLater : ℤ → ℤ → Spans → Type 0
NoneLater instant b spans = All (λ (span : ℤ × ℤ). covers instant span ≡ true → span.0 ≤ℤ b) spans

-- The latest beginning among the spans that cover an instant.
record Latest (instant : ℤ) (spans : Spans) : Type 0 where
  begin : ℤ
  begins : Begins begin spans
  before : begin ≤ℤ instant
  none_later : NoneLater instant begin spans

both : (b : Bool) → b ≡ true → b ≡ false → ⊥
both true c n = cc
both false c n = cc

weaken :
    (instant a b : ℤ) (spans : Spans)
    → a ≤ℤ b
    → NoneLater instant a spans
    → NoneLater instant b spans
weaken instant a b [] h all = tt
weaken instant a b (span ∷ spans) h all =
    (λ c. omega (arith, all.0 c, h), weaken instant a b spans h all.1)

none_covers : (instant b : ℤ) (spans : Spans) → at_bay instant spans ≡ 0 → NoneLater instant b spans
unfolding at_bay
none_covers instant b [] h = tt
none_covers instant b (span ∷ spans) h = elim (Bool-cases (covers instant span)) [
  | inl c ↦ absurd (not_zero (at_bay instant spans) (rw c at h))
  | inr n ↦ (λ c. absurd (both (covers instant span) c n), none_covers instant b spans (rw n at h))
]
  where
    not_zero : (n : ℕ) → suc n ≡ 0 → ⊥
    not_zero n e = omega arith

latest : (instant : ℤ) (spans : Spans) → (at_bay instant spans ≡ 0) ⊎ Latest instant spans
unfolding at_bay Begins
latest instant [] = inl refl
latest instant (span ∷ spans) = elim (Bool-cases (covers instant span)) [
  | inr n ↦ elim (latest instant spans) [
    | inl zero_there ↦ inl (rw n zero_there)
    | inr l ↦ inr (record {
      begin = l.begin;
      begins = inr l.begins;
      before = l.before;
      none_later = (λ c. absurd (both (covers instant span) c n), l.none_later);
    })
  ]
  | inl c ↦ inr (elim (latest instant spans) [
    | inl zero_there ↦ record {
      begin = span.0;
      begins = inl refl;
      before = begun instant span c;
      none_later = (λ d. omega arith, none_covers instant span.0 spans zero_there);
    }
    | inr l ↦ elim (Bool-cases (leb_ℤ span.0 l.begin)) [
      | inl le ↦ record {
        begin = l.begin;
        begins = inr l.begins;
        before = l.before;
        none_later = (λ d. ground arith, l.none_later);
      }
      | inr gt ↦ record {
        begin = span.0;
        begins = inl refl;
        before = begun instant span c;
        none_later =
            (λ d. omega arith, weaken instant l.begin span.0 spans (ground arith) l.none_later);
      }
    ]
  ])
]
  where
    begun : (instant : ℤ) (span : ℤ × ℤ) → covers instant span ≡ true → span.0 ≤ℤ instant
    begun instant span c = ground arith

-- As many stand there at the latest beginning.
at_bay_mono :
    (instant b : ℤ) (spans : Spans)
    → b ≤ℤ instant
    → NoneLater instant b spans
    → at_bay instant spans ≤ at_bay b spans
unfolding at_bay
at_bay_mono instant b [] h all = omega arith
at_bay_mono instant b (span ∷ spans) h all =
    let rest = at_bay_mono instant b spans h all.1 in
    elim (Bool-cases (covers instant span)) [
      | inl c ↦ rw (c, still c (all.0 c)) (omega (arith, rest))
      | inr n ↦ rw n (elim (Bool-cases (covers b span)) [
        | inl c ↦ rw c (omega (arith, rest))
        | inr m ↦ rw m rest
      ])
    ]
  where
    still : covers instant span ≡ true → span.0 ≤ℤ b → covers b span ≡ true
    still c le = ground arith

not_crowded :
    (capacity b : ℤ) (all spans : Spans)
    → any (λ (span : ℤ × ℤ). ltb_ℤ capacity (pos (at_bay span.0 all))) spans ≡ false
    → Begins b spans
    → pos (at_bay b all) ≤ℤ capacity
unfolding Begins
not_crowded capacity b all [] h begins = absurd begins
not_crowded capacity b all (span ∷ spans) h (inl same) =
    subst (λ x. pos (at_bay x all) ≤ℤ capacity) same
      (first (ltb_ℤ capacity (pos (at_bay span.0 all))) h refl)
  where
    first :
        (x : Bool)
        → (x || any (λ (s : ℤ × ℤ). ltb_ℤ capacity (pos (at_bay s.0 all))) spans) ≡ false
        → x ≡ ltb_ℤ capacity (pos (at_bay span.0 all))
        → pos (at_bay span.0 all) ≤ℤ capacity
    first true h e = cc
    first false h e = ground arith
not_crowded capacity b all (span ∷ spans) h (inr later) =
    not_crowded capacity b all spans (second (ltb_ℤ capacity (pos (at_bay span.0 all))) h) later
  where
    second :
        (x : Bool)
        → (x || any (λ (s : ℤ × ℤ). ltb_ℤ capacity (pos (at_bay s.0 all))) spans) ≡ false
        → any (λ (s : ℤ × ℤ). ltb_ℤ capacity (pos (at_bay s.0 all))) spans ≡ false
    second true h = cc
    second false h = h

-- Looking only at the instants at which a span begins is enough.
pub sweep_enough :
    (capacity instant : ℤ) (spans : Spans)
    → pos 0 ≤ℤ capacity
    → is_crowded capacity spans ≡ false
    → pos (at_bay instant spans) ≤ℤ capacity
unfolding is_crowded
sweep_enough capacity instant spans some_bay h = elim (latest instant spans) [
  | inl none_there ↦ omega (arith, none_there)
  | inr l ↦ omega (
    arith,
    at_bay_mono instant l.begin spans l.before l.none_later,
    not_crowded capacity l.begin spans spans h l.begins,
  )
]
