-- ===== src/LockConflict/Deletion.antt =====
-- The deletion filter of `minimal_conflict` (vrp/locks.py), for any test of feasibility.
use mathlib.Core.List.{append_assoc, append-nil}
use osrm_microservice.Prelude.{
  ◌≡◌, ◌≢◌, sym, subst, Bool, true, false, Bool-cases, inl, inr, List, [], ◌∷◌, ◌++◌, Result, ok,
  ok-injective, >>=-eq-ok,
}
use osrm_microservice.Model.Instruction.{Lock}
use osrm_microservice.LockConflict.{drop_needless}
use osrm_microservice.LockConflict.Fewer.{Fewer, all_kept, without_one, Fewer-trans}

module _ (feasible : List Lock → Result Bool) where
  -- The locks are among some that were found feasible.
  record Tried (ks : List Lock) : Type 0 where
    more : List Lock
    fine : feasible more ≡ ok true
    fewer : Fewer ks more

  -- Without any one of the locks kept, what is left was tried and found feasible.
  abbrev Needed : List Lock → List Lock → List Lock → Type 0
  Needed before [] rest = Unit
  Needed before (k ∷ kept) rest =
      Tried (before ++ (kept ++ rest)) × Needed (before ++ k ∷ []) kept rest

  Tried-less : (xs ys : List Lock) → Fewer xs ys → Tried ys → Tried xs
  Tried-less xs ys h t = record {
    more = t.more;
    fine = t.fine;
    fewer = Fewer-trans xs ys t.more h t.fewer;
  }

  drop_next :
      (before kept : List Lock) (k : Lock) (rest : List Lock)
      → Needed before kept (k ∷ rest)
      → Needed before kept rest
  drop_next before [] k rest h = tt
  drop_next before (j ∷ kept) k rest h = (
    Tried-less (before ++ (kept ++ rest)) (before ++ (kept ++ k ∷ rest))
        (subst (λ (x : List Lock). Fewer x (before ++ (kept ++ k ∷ rest)))
          (append_assoc before kept rest)
          (subst (λ (x : List Lock). Fewer (before ++ kept ++ rest) x)
            (append_assoc before kept (k ∷ rest)) (without_one (before ++ kept) k rest)))
        h.0,
    drop_next (before ++ j ∷ []) kept k rest h.1,
  )

  keep_next :
      (before kept : List Lock) (k : Lock) (rest : List Lock)
      → Needed before kept (k ∷ rest)
      → Tried (before ++ (kept ++ rest))
      → Needed before (kept ++ k ∷ []) rest
  keep_next before [] k rest h t = (t, tt)
  keep_next before (j ∷ kept) k rest h t = (
    subst (λ (x : List Lock). Tried (before ++ x)) (sym (append_assoc kept (k ∷ []) rest)) h.0,
    keep_next (before ++ j ∷ []) kept k rest h.1
        (subst Tried (sym (append_assoc before (j ∷ []) (kept ++ rest))) t),
  )

  abbrev go_on : List Lock → Lock → List Lock → Bool → Result (List Lock)
  go_on kept k rest without = elim without [
    | false ↦ drop_needless feasible kept rest
    | true ↦ drop_needless feasible (kept ++ k ∷ []) rest
  ]

  -- What the filter returns is still infeasible, and each lock in it is needed.
  drop_needless-Needed :
      (kept rest core : List Lock)
      → drop_needless feasible kept rest ≡ ok core
      → feasible (kept ++ rest) ≡ ok false
      → Needed [] kept rest
      → (feasible core ≡ ok false) × Needed [] core []
  unfolding drop_needless
  drop_needless-Needed kept [] core h bad needed =
      let same = ok-injective h in
      (
        subst (λ x. feasible x ≡ ok false) same
            (subst (λ x. feasible x ≡ ok false) (append-nil kept) bad),
        subst (λ x. Needed [] x []) same needed,
      )
  drop_needless-Needed kept (k ∷ rest) core h bad needed =
      let (without, e, h₁) = >>=-eq-ok (feasible (kept ++ rest)) (go_on kept k rest) h in
      elim (Bool-cases without) [
        | inl fine ↦
            drop_needless-Needed (kept ++ k ∷ []) rest core
              (subst (λ b. go_on kept k rest b ≡ ok core) fine h₁)
              (subst (λ x. feasible x ≡ ok false) (sym (append_assoc kept (k ∷ []) rest)) bad)
              (keep_next [] kept k rest needed (record {
                more = kept ++ rest;
                fine = subst (λ b. feasible (kept ++ rest) ≡ ok b) fine e;
                fewer = all_kept (kept ++ rest);
              }))
        | inr broken ↦
            drop_needless-Needed kept rest core
              (subst (λ b. go_on kept k rest b ≡ ok core) broken h₁)
              (subst (λ b. feasible (kept ++ rest) ≡ ok b) broken e)
              (drop_next [] kept k rest needed)
      ]

  -- One of the locks, by what stands before and after it.
  Needed-at :
      (before xs : List Lock) (k : Lock) (ys : List Lock)
      → Needed before (xs ++ k ∷ ys) []
      → Tried (before ++ (xs ++ ys))
  Needed-at before [] k ys h = subst (λ (x : List Lock). Tried (before ++ x)) (append-nil ys) h.0
  Needed-at before (j ∷ xs) k ys h =
      subst Tried (append_assoc before (j ∷ []) (xs ++ ys))
        (Needed-at (before ++ j ∷ []) xs k ys h.1)

  pub filter-irreducible :
      (locks core xs : List Lock) (k : Lock) (ys : List Lock)
      → ((less more : List Lock)
          → Fewer less more
          → feasible more ≡ ok true
          → feasible less ≢ ok false)
      → drop_needless feasible [] locks ≡ ok core
      → feasible locks ≡ ok false
      → core ≡ xs ++ k ∷ ys
      → (feasible core ≡ ok false) × (feasible (xs ++ ys) ≢ ok false)
  filter-irreducible locks core xs k ys monotone h bad split =
      let (infeasible, needed) = drop_needless-Needed [] locks core h bad tt in
      let t = Needed-at [] xs k ys (subst (λ x. Needed [] x []) split needed) in
      (infeasible, monotone (xs ++ ys) t.more t.fewer t.fine)
