-- ===== src/Epochs/Decision.antt =====
-- `decide` of vrp/epochs.py, for any dispatch policy.
use osrm_microservice.Prelude.{
  arith, ◌+◌, ◌≡◌, refl, sym, ◌∙◌, subst, inl, inr, Bool, true, false, Bool-cases, ◌&&◌, ◌||◌, not,
  List, [], ◌∷◌, any, keep, count_if, if◌then◌else◌, String, str_eq, eq_iff, eq_refl, member, ℤ,
  Result, ok, err, value_error, ok-injective, >>=-eq-ok, ◌>>=◌,
}
use osrm_microservice.Model.Order.{Order}
use osrm_microservice.Model.Problem.{Problem, order}
use osrm_microservice.Epochs.{
  Epoch, Classification, Dispatch, Policy, must_go, sort_in, classify, distinct, dispatch_of,
  decide,
}

or_right : (a b : Bool) → b ≡ true → (a || b) ≡ true
or_right true b e = refl
or_right false b e = e

pub member-keep :
    (id : String) (f : String → Bool) (ids : List String)
    → member id (keep f ids) ≡ (member id ids && f id)
unfolding member
member-keep id f [] = refl
member-keep id f (j ∷ ids) = elim (Bool-cases (str_eq j id)) [
  | inl e ↦
      let same = (eq_iff j id).0 e in
      elim (Bool-cases (f j)) [
        | inl y ↦ rw (y, e, subst (λ x. f x ≡ true) same y) refl
        | inr n ↦
            let gone = subst (λ x. f x ≡ false) same n in
            rw (n, e, member-keep id f ids, gone) (and_false (member id ids))
      ]
  | inr n ↦ elim (Bool-cases (f j)) [
    | inl y ↦ rw (y, n) (member-keep id f ids)
    | inr y ↦ rw (y, n) (member-keep id f ids)
  ]
]
  where
    and_false : (b : Bool) → (b && false) ≡ false
    and_false true = refl
    and_false false = refl

-- Two tests that agree on a list divide it.
count-keep_both :
    (f g test : String → Bool) (ids : List String)
    → ((id : String) → member id ids ≡ true → f id ≡ g id)
    → count_if test (keep f ids) + count_if test (keep (λ id. not (g id)) ids) ≡ count_if test ids
unfolding member
count-keep_both f g test [] same = refl
count-keep_both f g test (id ∷ ids) same =
    let later = count-keep_both f g test ids (λ j e. same j (or_right (str_eq id j) _ e)) in
    let here = same id (rw (eq_refl id) refl) in
    elim (Bool-cases (g id)) [
      | inl y ↦ elim (Bool-cases (test id)) [
        | inl t ↦ rw (here, y, t) (omega (arith, later))
        | inr t ↦ rw (here, y, t) later
      ]
      | inr n ↦ elim (Bool-cases (test id)) [
        | inl t ↦ rw (here, n, t) (omega (arith, later))
        | inr t ↦ rw (here, n, t) later
      ]
    ]

-- An open order that must go is found to be one.
classify-must :
    (p : Problem) (ids : List String) (until : ℤ) (c : Classification) (id : String) (o : Order)
    → classify p ids until ≡ ok c
    → member id ids ≡ true
    → order p id ≡ ok o
    → must_go p o until ≡ ok true
    → member id c.must_go ≡ true
unfolding classify member
classify-must p [] until c id o h e found must = cc
classify-must p (j ∷ ids) until c id o h e found must =
    let (o', found', h₁) = >>=-eq-ok (order p j) (sorted_as j) h in
    let (m, judged, h₂) = >>=-eq-ok (must_go p o' until) (sorted_with j) h₁ in
    let (rest, later, h₃) = >>=-eq-ok (classify p ids until) (λ x. ok (sort_in j m x)) h₂ in
    subst (λ (x : Classification). member id x.must_go ≡ true) (ok-injective h₃)
      (elim (Bool-cases (str_eq j id)) [
        | inl same ↦
            let there = subst (λ x. order p x ≡ ok o') ((eq_iff j id).0 same) found' in
            let alike = ok-injective (sym there ∙ found) in
            let is_must =
              ok-injective
                (sym judged ∙ subst (λ x. must_go p x until ≡ ok true) (sym alike) must) in
            subst (λ b. member id (sort_in j b rest).must_go ≡ true) (sym is_must) (rw same refl)
        | inr other ↦
            sorted_later m rest
              (classify-must p ids until rest id o later (rw other at e) found must)
      ])
  where
    sorted_with : String → Bool → Result Classification
    sorted_with j m = do rest ← classify p ids until; ok (sort_in j m rest)

    sorted_as : String → Order → Result Classification
    sorted_as j o' = do m ← must_go p o' until; sorted_with j m

    sorted_later :
        (m : Bool) (rest : Classification)
        → member id rest.must_go ≡ true
        → member id (sort_in j m rest).must_go ≡ true
    sorted_later true rest e = or_right (str_eq j id) _ e
    sorted_later false rest e = e

abbrev settle : List String → Classification → List String → Result Dispatch
settle ids split named =
    if any (λ id. not (member id ids)) (distinct named)
    then err value_error
    else ok (dispatch_of ids split.must_go (distinct named))

-- What `decide` returns is the division for the choice of the policy.
pub decided :
    (p : Problem) (ids : List String) (e : Epoch) (policy : Policy) (d : Dispatch)
    → decide p ids e policy ≡ ok d
    → (split : Classification) × (classify p ids e.end ≡ ok split)
      × ((named : List String) × (policy ids split e ≡ ok named)
          × (dispatch_of ids split.must_go (distinct named) ≡ d))
unfolding decide
decided p ids e policy d h =
    let (split, found, h₁) = >>=-eq-ok (classify p ids e.end) named_as h in
    let (named, chosen, h₂) = >>=-eq-ok (policy ids split e) (settle ids split) h₁ in
    (split, found, (named, chosen, settled split named h₂))
  where
    named_as : Classification → Result Dispatch
    named_as split = do named ← policy ids split e; settle ids split named

    settled :
        (split : Classification) (named : List String)
        → settle ids split named ≡ ok d
        → dispatch_of ids split.must_go (distinct named) ≡ d
    settled split named h = elim (Bool-cases (any (λ id. not (member id ids)) (distinct named))) [
      | inl bad ↦ absurd (refused (rw bad at h))
      | inr fine ↦ ok-injective (rw fine at h)
    ]
      where
        refused : err value_error ≡ ok d → ⊥
        refused e = cc

-- The parts of a division.
pub dispatched-must :
    (ids must chosen : List String) (id : String)
    → member id ids ≡ true
    → member id must ≡ true
    → member id (dispatch_of ids must chosen).dispatched ≡ true
unfolding dispatch_of
dispatched-must ids must chosen id e m =
    let forced = keep (λ j. not (member j chosen)) must in
    rw (member-keep id (λ j. member j chosen || member j forced) ids, e)
      (elim (Bool-cases (member id chosen)) [
        | inl y ↦ rw y refl
        | inr n ↦
            or_right (member id chosen) _
              (rw (member-keep id (λ j. not (member j chosen)) must, m, n) refl)
      ])

postponed-member :
    (ids must chosen : List String) (id : String)
    → member id (dispatch_of ids must chosen).postponed
      ≡ (member id ids && not (member id (dispatch_of ids must chosen).dispatched))
unfolding dispatch_of
postponed-member ids must chosen id =
    member-keep id (λ j. not (member j (dispatch_of ids must chosen).dispatched)) ids

divided :
    (ids must chosen : List String) (test : String → Bool)
    → count_if test (dispatch_of ids must chosen).dispatched
        + count_if test (dispatch_of ids must chosen).postponed
      ≡ count_if test ids
unfolding dispatch_of
divided ids must chosen test =
    let goes =
      λ (j : String). member j chosen || member j (keep (λ i. not (member i chosen)) must) in
    count-keep_both goes (λ j. member j (keep goes ids)) test ids
      (λ j e. rw (member-keep j goes ids, e) refl)

-- Whatever the policy chooses, an open order that must go (no vehicle could reach it in a hard window
-- when it leaves at the end of the wave or later) is among the dispatched orders and not among the
-- postponed ones.
pub decide-never_postpones :
    (p : Problem) (ids : List String) (e : Epoch) (policy : Policy) (d : Dispatch) (id : String)
    (o : Order)
    → decide p ids e policy ≡ ok d
    → member id ids ≡ true
    → order p id ≡ ok o
    → must_go p o e.end ≡ ok true
    → (member id d.dispatched ≡ true) × (member id d.postponed ≡ false)
decide-never_postpones p ids e policy d id o h is_open found must =
    let (split, classified, (named, _, same)) = decided p ids e policy d h in
    let chosen = distinct named in
    let urgent = classify-must p ids e.end split id o classified is_open found must in
    let goes = dispatched-must ids split.must_go chosen id is_open urgent in
    (
      subst (λ (x : Dispatch). member id x.dispatched ≡ true) same goes,
      subst (λ (x : Dispatch). member id x.postponed ≡ false) same
          (rw (postponed-member ids split.must_go chosen id, goes, is_open) refl),
    )

-- `decide` divides the open orders, for every policy: of every kind of identifier, the dispatched and
-- the postponed ones together are as many as the open ones, and none is both.
pub decide-divides :
    (p : Problem) (ids : List String) (e : Epoch) (policy : Policy) (d : Dispatch) (id : String)
    (test : String → Bool)
    → decide p ids e policy ≡ ok d
    → (count_if test d.dispatched + count_if test d.postponed ≡ count_if test ids)
      × ((member id d.dispatched && member id d.postponed) ≡ false)
decide-divides p ids e policy d id test h =
    let (split, classified, (named, _, same)) = decided p ids e policy d h in
    let chosen = distinct named in
    subst
      (λ (x : Dispatch).
        (count_if test x.dispatched + count_if test x.postponed ≡ count_if test ids)
        × ((member id x.dispatched && member id x.postponed) ≡ false))
      same (divided ids split.must_go chosen test, apart split.must_go chosen)
  where
    apart :
        (must chosen : List String)
        → (member id (dispatch_of ids must chosen).dispatched
            && member id (dispatch_of ids must chosen).postponed)
          ≡ false
    apart must chosen =
        rw (postponed-member ids must chosen id)
          (never (member id (dispatch_of ids must chosen).dispatched) (member id ids))
      where
        never : (a b : Bool) → (a && (b && not a)) ≡ false
        never true true = refl
        never true false = refl
        never false b = refl
