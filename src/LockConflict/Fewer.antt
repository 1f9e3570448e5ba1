-- ===== src/LockConflict/Fewer.antt =====
-- Sublists of an operator's locks (vrp/locks.py).
use osrm_microservice.Prelude.{List, [], ◌∷◌, ◌++◌}
use osrm_microservice.Model.Instruction.{Lock}

-- The first list is the second with some locks left out.
pub data Fewer : List Lock → List Lock → Type 0 where
  none_left : Fewer [] []
  left_out : (k : Lock) (xs ys : List Lock) → Fewer xs ys → Fewer xs (k ∷ ys)
  kept_in : (k : Lock) (xs ys : List Lock) → Fewer xs ys → Fewer (k ∷ xs) (k ∷ ys)

pub all_kept : (xs : List Lock) → Fewer xs xs
all_kept [] = none_left
all_kept (k ∷ xs) = kept_in k xs xs (all_kept xs)

pub Fewer-under : (ps xs ys : List Lock) → Fewer xs ys → Fewer (ps ++ xs) (ps ++ ys)
Fewer-under [] xs ys h = h
Fewer-under (p ∷ ps) xs ys h = kept_in p (ps ++ xs) (ps ++ ys) (Fewer-under ps xs ys h)

pub without_one : (ps : List Lock) (k : Lock) (xs : List Lock) → Fewer (ps ++ xs) (ps ++ k ∷ xs)
without_one ps k xs = Fewer-under ps xs (k ∷ xs) (left_out k xs xs (all_kept xs))

pub Fewer-trans : (xs ys zs : List Lock) → Fewer xs ys → Fewer ys zs → Fewer xs zs
Fewer-trans xs ys zs h none_left = h
Fewer-trans xs ys zs h (left_out k _ zs' h') = left_out k xs zs' (Fewer-trans xs ys zs' h h')
Fewer-trans xs ys zs (left_out k _ ys' h) (kept_in _ _ zs' h') =
    left_out k xs zs' (Fewer-trans xs ys' zs' h h')
Fewer-trans xs ys zs (kept_in k xs' ys' h) (kept_in _ _ zs' h') =
    kept_in k xs' zs' (Fewer-trans xs' ys' zs' h h')
