-- ===== src/Evaluator/Legal/Windows.antt =====
-- The hard windows that `route_is_legal` (vrp/evaluator.py) tests.
use osrm_microservice.Prelude.{
  arith, ◌≡◌, refl, sym, ap, ◌⊎◌, inl, inr, Bool, true, false, ◌||◌, not, Option, none, some, List,
  [], ◌∷◌, ◌++◌, any, if◌then◌else◌, All, String, ℤ, ◌≤ℤ◌, ok, or_raise, value_error, ok-injective,
  >>=-eq-ok, ◌>>=◌,
}
use osrm_microservice.Model.Window.{
  TimeWindow, Hardness, hard, soft, is_soft, contains, hard_windows,
}
use osrm_microservice.Model.Stop.{StopSpec}
use osrm_microservice.Model.Order.{Order, is_empty}
use osrm_microservice.Model.Problem.{Problem, order}
use osrm_microservice.Model.Plan.{Step}
use osrm_microservice.Model.Service.{delivery_or_pickup}
use osrm_microservice.Evaluator.Metrics.{windows_of}
use osrm_microservice.Evaluator.Legal.{in_hard_window}

-- The windows of the order that a step serves, if it serves one.
abbrev pub Promised : Problem → Option String → List TimeWindow → Type 0
Promised p none ws = ws ≡ []
Promised p (some id) ws =
    (o : Order) × (stop : StopSpec) × (order p id ≡ ok o)
    × (delivery_or_pickup o ≡ some stop)
    × (ws ≡ stop.time_windows)

-- A hard window that has the instant, by what stands before and after it.
abbrev pub Covered : List TimeWindow → ℤ → Type 0
Covered ws instant =
    (before : List TimeWindow) × (w : TimeWindow) × (after : List TimeWindow) × (ws
      ≡ before ++ w ∷ after)
    × (w.hardness ≡ hard)
    × (w.start ≤ℤ instant)
    × (instant ≤ℤ w.end)

-- No window is hard, or the instant is in a hard one.
abbrev pub Punctual : List TimeWindow → ℤ → Type 0
Punctual ws instant = All (λ w. w.hardness ≡ soft) ws ⊎ Covered ws instant

either_kind : (h : Hardness) → (h ≡ hard) ⊎ (h ≡ soft)
either_kind hard = inl refl
either_kind soft = inr refl

or_cases : (a b : Bool) → (a || b) ≡ true → (a ≡ true) ⊎ (b ≡ true)
or_cases true b h = inl refl
or_cases false b h = inr h

no_hard-soft :
    (ws : List TimeWindow) → is_empty (hard_windows ws) ≡ true → All (λ w. w.hardness ≡ soft) ws
no_hard-soft [] h = tt
no_hard-soft (w ∷ ws) h = elim (either_kind w.hardness) [
  | inr e ↦ (e, no_hard-soft ws (rw e at h))
  | inl e ↦ absurd (not_empty (rw e at h))
]
  where
    not_empty : false ≡ true → ⊥
    not_empty e = cc

Covered-later : (w : TimeWindow) (ws : List TimeWindow) (t : ℤ) → Covered ws t → Covered (w ∷ ws) t
Covered-later w ws t (before, x, after, same, is_hard, from, until) =
    (w ∷ before, x, after, ap (λ (y : List TimeWindow). w ∷ y) same, is_hard, from, until)

inside : (w : TimeWindow) (t : ℤ) → contains w t ≡ true → (w.start ≤ℤ t) × (t ≤ℤ w.end)
unfolding contains
inside w t h = ground arith

some_hard-Covered :
    (ws : List TimeWindow) (t : ℤ) → any (λ w. contains w t) (hard_windows ws) ≡ true → Covered ws t
some_hard-Covered [] t h = cc
some_hard-Covered (w ∷ ws) t h = elim (either_kind w.hardness) [
  | inr e ↦ Covered-later w ws t (some_hard-Covered ws t (rw e at h))
  | inl e ↦
      elim (or_cases (contains w t) (any (λ x. contains x t) (hard_windows ws))
        (counted (is_soft w.hardness) w (hard_windows ws) (ap is_soft e) h)) [
          | inl here ↦ let (from, until) = inside w t here in ([], w, ws, refl, e, from, until)
          | inr later ↦ Covered-later w ws t (some_hard-Covered ws t later)
        ]
]
  where
    counted :
        (s : Bool) (w : TimeWindow) (rest : List TimeWindow)
        → s ≡ false
        → any (λ x. contains x t) (if not s then w ∷ rest else rest) ≡ true
        → (contains w t || any (λ x. contains x t) rest) ≡ true
    counted true w rest e h = cc
    counted false w rest e h = h

pub in_hard_window-Punctual :
    (ws : List TimeWindow) (instant : ℤ) → in_hard_window ws instant ≡ true → Punctual ws instant
unfolding in_hard_window
in_hard_window-Punctual ws t h =
    elim (or_cases (is_empty (hard_windows ws)) (any (λ w. contains w t) (hard_windows ws)) h) [
      | inl none_hard ↦ inl (no_hard-soft ws none_hard)
      | inr some_hard ↦ inr (some_hard-Covered ws t some_hard)
    ]

pub windows_of-Promised :
    (p : Problem) (step : Step) (ws : List TimeWindow)
    → windows_of p step ≡ ok ws
    → Promised p step.order_id ws
unfolding windows_of
windows_of-Promised p step ws h = by_order step.order_id h
  where
    raised :
        (x : Option StopSpec) (stop : StopSpec) → or_raise x value_error ≡ ok stop → x ≡ some stop
    raised none stop e = cc
    raised (some y) stop e = ap some (ok-injective e)

    by_order :
        (id : Option String)
        → elim id [
          | none ↦ ok []
          | some j ↦ do
            o ← order p j
            stop ← or_raise (delivery_or_pickup o) value_error
            ok stop.time_windows
        ]
          ≡ ok ws
        → Promised p id ws
    by_order none h = sym (ok-injective h)
    by_order (some j) h =
        let (o, e, h₁) = >>=-eq-ok (order p j) _ h in
        let (stop, e₁, h₂) = >>=-eq-ok (or_raise (delivery_or_pickup o) value_error) _ h₁ in
        (o, stop, e, raised (delivery_or_pickup o) stop e₁, sym (ok-injective h₂))
