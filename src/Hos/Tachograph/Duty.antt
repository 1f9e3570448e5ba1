-- ===== src/Hos/Tachograph/Duty.antt =====
-- The fold of vrp/hos/tachograph.py against a reading of the feed from its end.
use osrm_microservice.Prelude.{
  ℕ, ◌+◌, ◌≡◌, ◌⊎◌, inl, inr, refl, sym, subst, arith, Bool-cases, true, false, Option, none, some,
  List, [], ◌∷◌, any, ◌||◌, if◌then◌else◌, String, str_eq, eq_iff, ℤ, pos, pos_part, negsuc, ok,
  value_error, ◌>>=◌, >>=-eq-ok, or_raise, ok-injective,
}
use osrm_microservice.Hos.Rules.{
  Activity, drive, break, rest, DriverState, rested, HoursOfServiceRules, advance,
}
use osrm_microservice.Hos.Tachograph.{
  DutyRecord, seconds, activity_of, ends_duty, read_entry, fold_duty, validate, daily_rest_for,
  read_duty,
}

abbrev driving : Option Activity → ℕ → ℕ
driving (some drive) n = n
driving _ n = 0

pub driven : DutyRecord → ℕ
driven e = driving (activity_of e.activity) (pos_part (seconds e))

pub total_driven : List DutyRecord → ℕ
unfolding driven
total_driven [] = 0
total_driven (e ∷ es) = driven e + total_driven es

pub total_time : List DutyRecord → ℕ
total_time [] = 0
total_time (e ∷ es) = pos_part (seconds e) + total_time es

-- The records after the last one that ends a duty; all of them if none does.
pub open_duty : ℤ → List DutyRecord → List DutyRecord
open_duty threshold [] = []
open_duty threshold (e ∷ es) =
    let rest_open = open_duty threshold es in
    if any (ends_duty threshold) (e ∷ es) then rest_open else e ∷ es

off_duty_activity :
    (a : String)
    → (str_eq a "REST" || str_eq a "BREAK") ≡ true
    → (activity_of a ≡ some rest) ⊎ (activity_of a ≡ some break)
unfolding activity_of
off_duty_activity a h = elim (Bool-cases (str_eq a "REST")) [
  | inl e ↦ inl (subst (λ x. activity_of x ≡ some rest) (sym ((eq_iff a "REST").0 e)) refl)
  | inr n ↦
      inr (subst (λ x. activity_of x ≡ some break) (sym ((eq_iff a "BREAK").0 (rw n at h))) refl)
]

rest-driven : (threshold : ℤ) (e : DutyRecord) → ends_duty threshold e ≡ true → driven e ≡ 0
unfolding driven ends_duty
rest-driven threshold e h = elim (off_duty_activity e.activity (ground arith)) [
  | inl r ↦ rw (r, driven)
  | inr b ↦ rw (b, driven)
]

advance_lem :
    (s s' : DriverState) (o : Option Activity) (x : ℤ)
    → (or_raise o value_error >>= λ a. advance s a x) ≡ ok s'
    → (s'.drive_used ≡ s.drive_used + driving o (pos_part x))
      × (s'.duty_used ≡ s.duty_used + pos_part x)
      × (s'.week_drive_used ≡ s.week_drive_used + driving o (pos_part x))
unfolding advance
advance_lem s s' none x h = cc
advance_lem s s' (some a) (negsuc n) h = cc
advance_lem s s' (some drive) (pos n) h = ground arith
advance_lem s s' (some a) (pos n) h = ground arith

read_entry_lem :
    (threshold : ℤ) (s s' : DriverState) (e : DutyRecord)
    → read_entry threshold s e ≡ ok s'
    → (s'.drive_used ≡ (if ends_duty threshold e then 0 else s.drive_used + driven e))
      × (s'.duty_used ≡ (if ends_duty threshold e then 0 else s.duty_used + pos_part (seconds e)))
      × (s'.week_drive_used ≡ s.week_drive_used + driven e)
unfolding read_entry
read_entry_lem threshold s s' e h = elim (Bool-cases (ends_duty threshold e)) [
  | inl ends ↦
      let kept = ok-injective (rw ends at h) in
      rw ends (ground (arith, kept, rest-driven threshold e ends))
  | inr goes ↦
      rw goes
        (unfold driven in advance_lem s s' (activity_of e.activity) (seconds e) (rw goes at h))
]

open_whole :
    (threshold : ℤ) (es : List DutyRecord)
    → any (ends_duty threshold) es ≡ false
    → open_duty threshold es ≡ es
unfolding open_duty
open_whole threshold [] h = refl
open_whole threshold (e ∷ es) h = rw h

fold_duty_lem :
    (threshold : ℤ) (s s' : DriverState) (es : List DutyRecord)
    → fold_duty threshold s es ≡ ok s'
    → (s'.drive_used
        ≡ (if any (ends_duty threshold) es then 0 else s.drive_used)
          + total_driven (open_duty threshold es))
      × (s'.duty_used
          ≡ (if any (ends_duty threshold) es then 0 else s.duty_used)
            + total_time (open_duty threshold es))
      × (s'.week_drive_used ≡ s.week_drive_used + total_driven es)
unfolding fold_duty total_driven total_time open_duty
fold_duty_lem threshold s s' [] h = ground arith
fold_duty_lem threshold s s' (e ∷ es) h =
    let (mid, step, later) =
      >>=-eq-ok (read_entry threshold s e) (λ x. fold_duty threshold x es) h in
    let one = read_entry_lem threshold s mid e step in
    let ih = fold_duty_lem threshold mid s' es later in
    ground (arith, one, ih, open_whole threshold es)

-- Where a feed is read, daily driving and duty are those of the records after the last rest or break
-- that ends a duty under the rule set, and the week's driving is that of the whole feed. (Each of
-- them starts from a rested driver.)
pub read_duty_lem :
    (records : List DutyRecord) (r : HoursOfServiceRules) {s : DriverState} (threshold : ℤ)
    → read_duty records r ≡ ok s
    → daily_rest_for r ≡ ok threshold
    → (s.drive_used ≡ total_driven (open_duty threshold records))
      × (s.duty_used ≡ total_time (open_duty threshold records))
      × (s.week_drive_used ≡ total_driven records)
unfolding read_duty
read_duty_lem records r {s} threshold h t =
    let (u, valid, rest_of) =
      >>=-eq-ok (validate none records) (λ _. daily_rest_for r >>= λ k. fold_duty k rested records)
        h in
    let folded = rw t at rest_of in ground (arith, fold_duty_lem threshold rested s records folded)
