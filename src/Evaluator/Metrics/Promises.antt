-- ===== src/Evaluator/Metrics/Promises.antt =====
-- The promises that `window_attainment` of vrp/evaluator.py counts.
use native.Mathlib.Nat.{le-div_iff_mul-le, div-le_of_le-mul, mul-div_cancel_left}
use osrm_microservice.Prelude.{
  ℕ, ◌+◌, ◌*◌, ◌/◌, ◌≤◌, ◌<◌, ◌≡◌, ◌==◌, ==-true→eq, ==-false→ne, ap, pos_part, sym, ◌∙◌, subst,
  Option, ◌↔◌, refl, arith, if◌then◌else◌, Bool, true, false, Bool-cases, Option-cases, inl, inr,
  none, some, List, [], ◌∷◌, ℤ, pos, ◌+ℤ◌, ◌-ℤ◌, ◌≤ℤ◌, ◌<ℤ◌, int_laws, max_ℤ, ok, >>=-eq-ok,
  ok-injective,
}
use osrm_microservice.Model.Window.{TimeWindow}
use osrm_microservice.Model.Problem.{Problem}
use osrm_microservice.Model.Plan.{Step}
use osrm_microservice.Evaluator.Metrics.{
  Attainment, nothing_promised, windows_of, is_kept, last_closed, count_step, count_from,
  window_attainment, attained_ppt, missed, full,
}

-- What the counts of any timeline satisfy.
pub record IsTally (a : Attainment) : Type 0 where
  pub kept : a.on_time ≤ a.promised
  pub worst_pos : pos 0 ≤ℤ a.worst_lateness
  pub worst_le : a.worst_lateness ≤ℤ a.lateness_seconds
  pub punctual : a.on_time ≡ a.promised → a.lateness_seconds ≡ pos 0

max_le : (a b c : ℤ) → a ≤ℤ c → b ≤ℤ c → max_ℤ a b ≤ℤ c
unfolding max_ℤ
max_le a b c h k = ground arith

plus_zero : (a : ℤ) → a +ℤ pos 0 ≡ a
plus_zero a = omega int_laws

last_closed-lt :
    (instant : ℤ) (ws : List TimeWindow) (end : ℤ)
    → last_closed instant ws ≡ some end
    → end <ℤ instant
unfolding last_closed max_ℤ
last_closed-lt instant [] end h = cc
last_closed-lt instant (w ∷ ws) end h = elim (Option-cases (last_closed instant ws)) [
  | inl nothing ↦ ground (arith, nothing)
  | inr (e, same) ↦ ground (arith, same, last_closed-lt instant ws e same)
]

since_closed :
    (instant : ℤ) (kept : Bool) (closed : Option ℤ)
    → ((end : ℤ) → closed ≡ some end → end <ℤ instant)
    → pos 0 ≤ℤ (if kept then pos 0 else elim closed [ some end ↦ instant -ℤ end | none ↦ pos 0 ])
since_closed instant true closed h = omega arith
since_closed instant false none h = omega arith
since_closed instant false (some end) h = omega (int_laws, h end refl)

-- A step whose promise is kept adds one to both counts; one that is not, to the promises alone.
IsTally-kept :
    (a : Attainment)
    → IsTally a
    → IsTally (record {
      promised = a.promised + 1;
      on_time = a.on_time + 1;
      lateness_seconds = a.lateness_seconds +ℤ pos 0;
      worst_lateness = max_ℤ a.worst_lateness (pos 0);
    })
IsTally-kept a t = record {
  kept = omega (arith, t.kept);
  worst_pos = omega (int_laws, t.worst_pos);
  worst_le =
      max_le a.worst_lateness (pos 0) _ (omega (int_laws, t.worst_le))
        (omega (int_laws, t.worst_pos, t.worst_le));
  punctual = λ e. plus_zero a.lateness_seconds ∙ t.punctual (omega arith);
}

IsTally-missed :
    (a : Attainment) (late : ℤ)
    → pos 0 ≤ℤ late
    → IsTally a
    → IsTally (record {
      promised = a.promised + 1;
      on_time = a.on_time;
      lateness_seconds = a.lateness_seconds +ℤ late;
      worst_lateness = max_ℤ a.worst_lateness late;
    })
IsTally-missed a late h t = record {
  kept = omega (arith, t.kept);
  worst_pos = omega (int_laws, t.worst_pos);
  worst_le =
      max_le a.worst_lateness late _ (omega (int_laws, t.worst_le))
        (omega (int_laws, t.worst_pos, t.worst_le));
  punctual = λ e. absurd (omega (arith, t.kept));
}

count_step-IsTally :
    (ws : List TimeWindow) (instant : ℤ) (a : Attainment)
    → IsTally a
    → IsTally (count_step ws instant a)
unfolding count_step
count_step-IsTally [] instant a t = t
count_step-IsTally (w ∷ ws) instant a t = elim (Bool-cases (is_kept instant (w ∷ ws))) [
  | inl kept ↦ rw kept (IsTally-kept a t)
  | inr missed ↦ rw missed (
      IsTally-missed a _
        (since_closed instant false (last_closed instant (w ∷ ws))
          (last_closed-lt instant (w ∷ ws)))
        t)
]

count_from-IsTally :
    (p : Problem) (steps : List Step) (a b : Attainment)
    → count_from p steps a ≡ ok b
    → IsTally a
    → IsTally b
unfolding count_from
count_from-IsTally p [] a b h t = subst IsTally (ok-injective h) t
count_from-IsTally p (step ∷ steps) a b h t =
    let (ws, same, rest) =
      >>=-eq-ok (windows_of p step) (λ ws. count_from p steps (count_step ws step.start_service a))
        h in
    count_from-IsTally p steps (count_step ws step.start_service a) b rest
      (count_step-IsTally ws step.start_service a t)

IsTally-none : IsTally nothing_promised
IsTally-none = record {
  kept = omega arith;
  worst_pos = omega arith;
  worst_le = omega arith;
  punctual = λ _. refl;
}

share_full : (n m : ℕ) → n ≤ m → 0 < m → (n * full / m ≤ full) × ((n * full / m ≡ full) ↔ (n ≡ m))
share_full n m le h =
    let at_least = le-div_iff_mul-le {x = full} {y = n * full} h in
    (
      div-le_of_le-mul m (omega arith),
      (
        (λ e. omega (arith, le, at_least.0 (omega (arith, e)))),
        λ e. subst (λ k. k * full / m ≡ full) (sym e) (mul-div_cancel_left full h),
      ),
    )

minus_zero : (m n : ℕ) → n ≤ m → (pos m -ℤ pos n ≡ pos 0) ↔ (n ≡ m)
unfolding ◌-ℤ◌
minus_zero m n le = (λ e. omega (int_laws, ap pos_part e), λ e. ground arith)

share_of_tally :
    (a : Attainment)
    → a.on_time ≤ a.promised
    → (attained_ppt a ≤ full) × ((attained_ppt a ≡ full) ↔ (a.on_time ≡ a.promised))
unfolding attained_ppt
share_of_tally a le = elim (Bool-cases (a.promised == 0)) [
  | inl none_promised ↦
      rw none_promised
        (omega arith, ((λ _. omega (arith, le, ==-true→eq _ _ none_promised)), λ _. refl))
  | inr some_promised ↦
      rw some_promised
        (share_full a.on_time a.promised le (omega (arith, ==-false→ne _ _ some_promised)))
]

-- Of every timeline whose promises can be counted: no more are kept than made; the worst lateness is
-- not negative and at most the total; the share that is attained is at most the full one, and is the
-- full one exactly if every promise is kept; and then no lateness is counted at all.
pub window_attainment-IsTally :
    (p : Problem) (timeline : List Step) (a : Attainment)
    → window_attainment p timeline ≡ ok a
    → IsTally a
      × (attained_ppt a ≤ full)
      × ((attained_ppt a ≡ full) ↔ (missed a ≡ pos 0))
      × (attained_ppt a ≡ full → a.lateness_seconds ≡ pos 0)
unfolding window_attainment missed
window_attainment-IsTally p timeline a h =
    let t = count_from-IsTally p timeline nothing_promised a h IsTally-none in
    let (le, same) = share_of_tally a t.kept in
    let zero_missed = minus_zero a.promised a.on_time t.kept in
    (
      t,
      le,
      ((λ e. zero_missed.1 (same.0 e)), λ e. same.1 (zero_missed.0 e)),
      λ e. t.punctual (same.0 e),
    )
