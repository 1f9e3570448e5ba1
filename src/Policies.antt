-- ===== src/Policies.antt =====
-- vrp/policies.py: the policies that every other is measured against, but for the random one.
use osrm_microservice.Prelude.{
  ◌≡◌, refl, sym, ◌∙◌, ap, subst, inl, inr, Bool, true, false, Bool-cases, ◌&&◌, ◌||◌, not, List,
  [], ◌∷◌, keep, String, str_eq, eq_iff, eq_refl, member, ok, ok-injective,
}
use osrm_microservice.Model.Problem.{Problem}
use osrm_microservice.Epochs.{
  Epoch, Classification, Dispatch, Policy, classify, distinct, dispatch_of, decide,
}
use osrm_microservice.Epochs.Decision.{member-keep, decided}

-- `greedy`
abbrev pub greedy : Policy
greedy open_ids split epoch = ok open_ids

-- `lazy`
abbrev pub lazy : Policy
lazy open_ids split epoch = ok split.must_go

-- Text is compared the same way round or the other.
apart : (id j : String) → str_eq j id ≡ false → str_eq id j ≡ false
apart id j n = elim (Bool-cases (str_eq id j)) [
  | inl e ↦ absurd (clash ((eq_iff id j).0 e))
  | inr e ↦ e
]
  where
    clash : id ≡ j → ⊥
    clash e = not_both (eq_refl id) (subst (λ x. str_eq x id ≡ false) (sym e) n)
      where
        not_both : {b : Bool} → b ≡ true → b ≡ false → ⊥
        not_both t f = cc

other_one : (same held : Bool) → same ≡ false → (held && not same) ≡ held
other_one true held e = cc
other_one false true e = refl
other_one false false e = refl

member-distinct : (id : String) (ids : List String) → member id (distinct ids) ≡ member id ids
unfolding member distinct
member-distinct id [] = refl
member-distinct id (j ∷ ids) = elim (Bool-cases (str_eq j id)) [
  | inl e ↦ rw e refl
  | inr n ↦
      rw (n, member-keep id (λ other. not (str_eq other j)) (distinct ids), member-distinct id ids)
        (other_one (str_eq id j) (member id ids) (apart id j n))
]

-- An order that a division sends is open, and it is chosen or must go.
sent_because :
    (ids must chosen : List String) (id : String)
    → member id (dispatch_of ids must chosen).dispatched
      ≡ (member id ids && (member id chosen || (member id must && not (member id chosen))))
unfolding dispatch_of
sent_because ids must chosen id =
    let forced = keep (λ j. not (member j chosen)) must in
    rw
      (
        member-keep id (λ j. member j chosen || member j forced) ids,
        member-keep id (λ j. not (member j chosen)) must,
      )
      refl

-- The same for `decide`, with the classification that it works on.
sent :
    (p : Problem) (ids : List String) (e : Epoch) (policy : Policy) (d : Dispatch)
    (split : Classification) (id : String)
    → decide p ids e policy ≡ ok d
    → classify p ids e.end ≡ ok split
    → (named : List String) × (policy ids split e ≡ ok named)
      × (member id d.dispatched ≡ (
          member id ids && (member id named || (member id split.must_go && not (member id named)))))
sent p ids e policy d split id h found =
    let (split', found', (named, chose, same)) = decided p ids e policy d h in
    let alike = ok-injective (sym found' ∙ found) in
    (
      named,
      subst (λ (x : Classification). policy ids x e ≡ ok named) alike chose,
      sym (ap (λ (x : Dispatch). member id x.dispatched) same)
          ∙ subst
              (λ (x : Classification).
                member id (dispatch_of ids split'.must_go (distinct named)).dispatched ≡ (
                  member id ids
                  && (member id named || (member id x.must_go && not (member id named)))))
              alike
              (rw (sent_because ids split'.must_go (distinct named) id, member-distinct id named)
                refl),
    )

between :
    (i n m : Bool)
    → ((not (i && (m || (m && not m))) || (i && (n || (m && not n)))) ≡ true)
      × ((not (i && (n || (m && not n))) || (i && (i || (m && not i)))) ≡ true)
between false n m = (refl, refl)
between true true true = (refl, refl)
between true true false = (refl, refl)
between true false true = (refl, refl)
between true false false = (refl, refl)

-- At one wave, every policy sends at least what `lazy` sends and at most what `greedy` sends: an order
-- that `lazy` dispatches is dispatched under the policy, and one that the policy dispatches is
-- dispatched under `greedy`, wherever the three decisions return.
pub baselines-bound :
    (p : Problem) (ids : List String) (e : Epoch) (policy : Policy) (least d most : Dispatch)
    (id : String)
    → decide p ids e lazy ≡ ok least
    → decide p ids e policy ≡ ok d
    → decide p ids e greedy ≡ ok most
    → ((not (member id least.dispatched) || member id d.dispatched) ≡ true)
      × ((not (member id d.dispatched) || member id most.dispatched) ≡ true)
baselines-bound p ids e policy least d most id h₀ h h₁ =
    let (split, found, rest) = decided p ids e policy d h in
    let (named₀, chose₀, sent₀) = sent p ids e lazy least split id h₀ found in
    let (named, chose, sent_d) = sent p ids e policy d split id h found in
    let (named₁, chose₁, sent₁) = sent p ids e greedy most split id h₁ found in
    let all_must = ap (member id) (ok-injective (sym chose₀)) in
    let all_open = ap (member id) (ok-injective (sym chose₁)) in
    rw (sent₀, sent_d, sent₁, all_must, all_open)
      (between (member id ids) (member id named) (member id split.must_go))
