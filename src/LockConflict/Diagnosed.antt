-- ===== src/LockConflict/Diagnosed.antt =====
-- Pre-flight's diagnosis of an order (vrp/diagnose.py), under more and under fewer locks.
use osrm_microservice.Prelude.{
  arith, ◌≡◌, refl, sym, ◌∙◌, subst, Bool, true, false, not, ◌&&◌, Option, none, some, List, [],
  ◌∷◌, keep, ok, ok-injective, >>=-eq-ok, ◌>>=◌,
}
use osrm_microservice.Model.Stop.{Location, StopSpec}
use osrm_microservice.Model.Order.{Order}
use osrm_microservice.Model.Vehicle.{Vehicle}
use osrm_microservice.Model.Problem.{Problem, location}
use osrm_microservice.Model.Instruction.{Lock}
use osrm_microservice.Model.Service.{may_enter, has_skills_for}
use osrm_microservice.Diagnose.{
  Reason, is_forbidden, narrow, may_take, stop_for, reaches_from, can_reach, duty_under, duty_fits,
  forced_together, depot_holds, judge_usable, judge_stocked, judge_fleet, eligible, is_pinned,
  diagnose_order, preflight_from,
}
use osrm_microservice.LockConflict.{replace_locks}
use osrm_microservice.LockConflict.Fewer.{Fewer}
use osrm_microservice.LockConflict.Fleets.{Within, keep-Within, narrow-Within, free_with_fewer}
use osrm_microservice.LockConflict.Judged.{fleet-Within}

-- A diagnosis of a fleet looks at no lock.
judged_alike :
    (p : Problem) (ks : List Lock) (o : Order) (a : List Vehicle)
    → judge_fleet (replace_locks p ks) o a ≡ judge_fleet p o a
unfolding judge_fleet judge_stocked judge_usable can_reach reaches_from duty_fits duty_under
    depot_holds forced_together location
judged_alike p ks o a = refl

pub own_findings :
    (p : Problem) (os : List Order)
    → preflight_from p os ≡ preflight_from (replace_locks p p.locks) os
unfolding preflight_from is_pinned diagnose_order eligible judge_fleet judge_stocked judge_usable
    can_reach reaches_from duty_fits duty_under depot_holds forced_together location
own_findings p [] = refl
own_findings p (o ∷ os) = rw (own_findings p os) refl

module _ (p : Problem) (o : Order) where
  abbrev taken : List Lock → Location → List Vehicle
  taken ks site = narrow o ks (keep (may_take ks o site) p.vehicles)

  -- The fleet that a diagnosis judges.
  record Judged (ks : List Lock) (r : Option Reason) : Type 0 where
    stop : StopSpec
    site : Location
    stop_found : stop_for o ≡ ok stop
    site_found : location p stop.location_id ≡ ok site
    judged : judge_fleet p o (taken ks site) ≡ ok r

  diagnosed :
      (ks : List Lock) (r : Option Reason)
      → diagnose_order (replace_locks p ks) o ≡ ok r
      → Judged ks r
  unfolding diagnose_order eligible location
  diagnosed ks r h =
      let q = replace_locks p ks in
      let (fleet, e, h₁) = >>=-eq-ok (eligible q o) (judge_fleet q o) h in
      let (stop, e_stop, h₂) =
        >>=-eq-ok (stop_for o) (λ x. do site ← location q x.location_id; ok (taken ks site)) e in
      let (site, e_site, h₃) = >>=-eq-ok (location q stop.location_id) (λ x. ok (taken ks x)) h₂ in
      record {
        stop = stop;
        site = site;
        stop_found = e_stop;
        site_found = e_site;
        judged =
            sym (judged_alike p ks o (taken ks site))
            ∙ subst (λ x. judge_fleet q o x ≡ ok r) (sym (ok-injective h₃)) h₁;
      }

  taken-Within :
      (less more : List Lock) (site : Location)
      → Fewer less more
      → Within (taken more site) (taken less site)
  taken-Within less more site h =
      narrow-Within o less more (keep (may_take more o site) p.vehicles)
        (keep (may_take less o site) p.vehicles) h
        (keep-Within (may_take more o site) (may_take less o site) p.vehicles p.vehicles
          (λ v e.
            middle (has_skills_for v o) (not (is_forbidden more v)) (not (is_forbidden less v))
              (may_enter v site) (free_with_fewer less more v h) e)
          (λ f. omega arith))
    where
      middle :
          (a x y b : Bool) → (x ≡ true → y ≡ true) → (a && x && b) ≡ true → (a && y && b) ≡ true
      middle true true y true h e = rw (h refl) refl
      middle true true y false h e = cc
      middle true false y b h e = cc
      middle false x y b h e = cc

  pub diagnosed_less :
      (less more : List Lock) (c : Reason)
      → Fewer less more
      → diagnose_order (replace_locks p more) o ≡ ok none
      → diagnose_order (replace_locks p less) o ≡ ok (some c)
      → ⊥
  diagnosed_less less more c h fine broken =
      let m = diagnosed more none fine in
      let l = diagnosed less (some c) broken in
      let same_stop = ok-injective (sym m.stop_found ∙ l.stop_found) in
      let found =
        subst (λ (x : StopSpec). location p x.location_id ≡ ok m.site) same_stop m.site_found in
      let same_site = ok-injective (sym found ∙ l.site_found) in
      fleet-Within p o (taken more l.site) (taken less l.site) c (taken-Within less more l.site h)
        (subst (λ x. judge_fleet p o (taken more x) ≡ ok none) same_site m.judged) l.judged
