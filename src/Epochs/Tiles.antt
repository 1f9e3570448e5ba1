-- ===== src/Epochs/Tiles.antt =====
-- `epochs` of vrp/epochs.py: the waves cover the horizon.
use osrm_microservice.Prelude.{
  arith, leb→≤ℤ, leb-false→<ℤ, true, false, if◌then◌else◌, ℕ, zero, suc, ◌≡◌, refl, sym, ap, subst,
  ◌⊎◌, inl, inr, Bool, Bool-cases, List, [], ◌∷◌, count_if, ◌&&◌, ℤ, pos, ◌+ℤ◌, ◌≤ℤ◌, ◌<ℤ◌, leb_ℤ,
  ltb_ℤ, min_ℤ, ltb→<ℤ, ltb-false→≤ℤ, ≤ℤ→ltb-false, ≤ℤ→leb, <ℤ→leb-false, gap, int_laws, ok,
}
use osrm_microservice.Model.Window.{TimeWindow}
use osrm_microservice.Epochs.{Epoch, waves_from, epochs}

-- The waves follow one another from one instant to another without a gap and without going beyond
-- it; a wave that is not as long as it should be ends there.
abbrev pub Tiles : ℕ → ℤ → ℤ → ℤ → List Epoch → Type 0
Tiles index start end length [] = end ≤ℤ start
Tiles index start end length (w ∷ ws) =
    (w.index ≡ index)
    × (w.start ≡ start)
    × (w.start <ℤ w.end)
    × (w.end ≤ℤ end)
    × (w.end ≤ℤ (start +ℤ length))
    × ((w.end ≡ start +ℤ length) ⊎ (w.end ≡ end))
    × Tiles (suc index) w.end end length ws

min_ℤ-cases : (a b : ℤ) → ((min_ℤ a b ≡ a) × (a ≤ℤ b)) ⊎ ((min_ℤ a b ≡ b) × (b ≤ℤ a))
unfolding min_ℤ
min_ℤ-cases a b = ground arith

after_end :
    (fuel index : ℕ) (start end length : ℤ)
    → end ≤ℤ start
    → waves_from fuel index start end length ≡ ok []
unfolding waves_from
after_end zero index start end length h = rw (≤ℤ→ltb-false end start h) refl
after_end (suc fuel) index start end length h = rw (≤ℤ→ltb-false end start h) refl

abbrev Covered : ℕ → ℕ → ℤ → ℤ → ℤ → Type 0
Covered fuel index start end length =
    (ws : List Epoch) × (waves_from fuel index start end length ≡ ok ws)
    × Tiles index start end length ws

waves_from-Tiles :
    (fuel index : ℕ) (start end length : ℤ)
    → pos 0 <ℤ length
    → end ≤ℤ (start +ℤ pos fuel)
    → Covered fuel index start end length
unfolding waves_from
waves_from-Tiles zero index start end length h enough =
    ([], after_end zero index start end length (omega int_laws), omega int_laws)
waves_from-Tiles (suc fuel) index start end length h enough = elim (Bool-cases (ltb_ℤ start end)) [
  | inr e ↦ ([], rw e refl, ltb-false→≤ℤ start end e)
  | inl e ↦ elim (min_ℤ-cases (start +ℤ length) end) [
    | inl (m, le) ↦
        let (ws, same, tiles) =
          waves_from-Tiles fuel (suc index) (start +ℤ length) end length h (omega int_laws) in
        (
          record { index = index; start = start; end = start +ℤ length } ∷ ws,
          rw (e, same, m) refl,
          (refl, refl, omega int_laws, le, omega int_laws, inl refl, tiles),
        )
    | inr (m, le) ↦
        let past = after_end fuel (suc index) (start +ℤ length) end length le in
        (
          record { index = index; start = start; end = end } ∷ [],
          rw (e, past, m) refl,
          (refl, refl, ltb→<ℤ start end e, omega int_laws, le, inr refl, omega int_laws),
        )
  ]
]

-- An instant is in a wave.
abbrev pub is_in : ℤ → Epoch → Bool
is_in instant w = leb_ℤ w.start instant && ltb_ℤ instant w.end

-- Before the first of the waves, no wave has the instant.
count-before :
    (index : ℕ) (start end length instant : ℤ) (ws : List Epoch)
    → Tiles index start end length ws
    → instant <ℤ start
    → count_if (is_in instant) ws ≡ 0
count-before index start end length t [] h before = refl
count-before index start end length t (w ∷ ws) (i, s, lt, inside, short, full, rest) before =
    let early = subst (λ x. t <ℤ x) (sym s) before in
    rw (<ℤ→leb-false w.start t early)
      (count-before (suc index) w.end end length t ws rest (omega int_laws))

count-within :
    (index : ℕ) (start end length instant : ℤ) (ws : List Epoch)
    → Tiles index start end length ws
    → start ≤ℤ instant
    → instant <ℤ end
    → count_if (is_in instant) ws ≡ 1
count-within index start end length t [] h from until = absurd (omega int_laws)
count-within index start end length t (w ∷ ws) (i, s, lt, inside, short, full, rest) from until =
    elim (Bool-cases (ltb_ℤ t w.end)) [
      | inl now ↦
          rw (≤ℤ→leb w.start t (subst (λ x. x ≤ℤ t) (sym s) from), now)
            (ap suc (count-before (suc index) w.end end length t ws rest (ltb→<ℤ t w.end now)))
      | inr later ↦
          rw (≤ℤ→leb w.start t (subst (λ x. x ≤ℤ t) (sym s) from), later)
            (count-within (suc index) w.end end length t ws rest (ltb-false→≤ℤ t w.end later) until)
    ]

-- From the end of the horizon on, no wave has the instant.
count-after :
    (index : ℕ) (start end length instant : ℤ) (ws : List Epoch)
    → Tiles index start end length ws
    → end ≤ℤ instant
    → count_if (is_in instant) ws ≡ 0
count-after index start end length t [] h after = refl
count-after index start end length t (w ∷ ws) (i, s, lt, inside, short, full, rest) after =
    rw (≤ℤ→ltb-false w.end t (omega int_laws), and_false (leb_ℤ w.start t))
      (count-after (suc index) w.end end length t ws rest after)
  where
    and_false : (b : Bool) → (b && false) ≡ false
    and_false true = refl
    and_false false = refl

-- Once in the horizon, and never outside it.
count-Tiles :
    (index : ℕ) (start end length instant : ℤ) (ws : List Epoch)
    → Tiles index start end length ws
    → count_if (is_in instant) ws ≡ (if leb_ℤ start instant && ltb_ℤ instant end then 1 else 0)
count-Tiles index start end length t ws h = elim (Bool-cases (leb_ℤ start t)) [
  | inr early ↦ rw early (count-before index start end length t ws h (leb-false→<ℤ start t early))
  | inl from ↦ elim (Bool-cases (ltb_ℤ t end)) [
    | inl until ↦
        rw (from, until)
          (count-within index start end length t ws h (leb→≤ℤ start t from) (ltb→<ℤ t end until))
    | inr late ↦
        rw (from, late) (count-after index start end length t ws h (ltb-false→≤ℤ t end late))
  ]
]

-- For a length above zero and any horizon, `epochs` returns: its waves are numbered from 0, follow
-- one another without a gap from the start of the horizon to its end and never beyond it, and each
-- is `length` long, but for a last one that is shorter and ends where the horizon ends. An instant of
-- the horizon is in exactly one wave, and any other in none.
pub epochs-partition :
    (horizon : TimeWindow) (length instant : ℤ)
    → pos 0 <ℤ length
    → (ws : List Epoch) × (epochs horizon length ≡ ok ws)
      × Tiles 0 horizon.start horizon.end length ws
      × (count_if (is_in instant) ws
          ≡ (if leb_ℤ horizon.start instant && ltb_ℤ instant horizon.end then 1 else 0))
unfolding epochs
epochs-partition horizon length t h =
    let (ws, same, tiles) =
      waves_from-Tiles (gap horizon.start horizon.end) 0 horizon.start horizon.end length h
        (omega int_laws) in
    (
      ws,
      rw (<ℤ→leb-false length (pos 0) h) same,
      tiles,
      count-Tiles 0 horizon.start horizon.end length t ws tiles,
    )
