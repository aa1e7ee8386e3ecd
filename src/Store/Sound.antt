-- ===== src/Store/Sound.antt =====
-- The invariant of the database: no two licenses share a uuid, every uuid was issued before the
-- next one, and every license has its plan.
use license_manager.Base.{
  ℕ, zero, suc, ◌+◌, ◌≤◌, ◌<◌, ◌≡◌, refl, true, none, List, [], ◌∷◌, arith, All, All-append,
  All-map_imp, is_some,
}
use license_manager.Base.Table.{find, upsert, All-upsert}
use license_manager.Base.Table.Keys.{DistinctKeys, upsert-DistinctKeys, append-DistinctKeys}
use license_manager.Models.{License, Plan, license_keyed, plan_keyed}
use license_manager.Store.Monad.{World}
use license_manager.Store.{fresh_licenses}
use license_manager.Store.Counts.{grown}

-- The foreign key of a license.
abbrev pub HasPlan : List Plan → License → Type 0
HasPlan plans l = is_some (find l.subscription_plan plans) ≡ true

pub record IsSound (w : World) : Type 0 where
  pub keys : DistinctKeys w.licenses
  pub issued : All (λ (l : License). l.uuid < w.next_uuid) w.licenses
  pub linked : All (HasPlan w.plans) w.licenses

-- Saving a license under a uuid that was issued, in a plan that exists.
pub upsert-IsSound :
    (l : License) (w : World)
    → IsSound w
    → l.uuid < w.next_uuid
    → HasPlan w.plans l
    → IsSound (record w { db = record w.db { licenses = upsert l w.licenses } })
upsert-IsSound l w s issued linked = record {
  keys = upsert-DistinctKeys l w.licenses s.keys;
  issued = All-upsert (λ (x : License). x.uuid < w.next_uuid) l w.licenses s.issued issued;
  linked = All-upsert (HasPlan w.plans) l w.licenses s.linked linked;
}

HasPlan-upsert :
    (p : Plan) (plans : List Plan) (l : License) → HasPlan plans l → HasPlan (upsert p plans) l
HasPlan-upsert p [] l h = cc
HasPlan-upsert p (q ∷ plans) l h = ground (arith, HasPlan-upsert p plans l)

pub save_plan-IsSound :
    (p : Plan) (w : World)
    → IsSound w
    → IsSound (record w { db = record w.db { plans = upsert p w.plans } })
save_plan-IsSound p w s = record {
  keys = s.keys;
  issued = s.issued;
  linked =
      All-map_imp (HasPlan w.plans) (HasPlan (upsert p w.plans)) w.licenses
        (HasPlan-upsert p w.plans) s.linked;
}

find-fresh_licenses : (plan start n u : ℕ) → u < start → find u (fresh_licenses plan start n) ≡ none
unfolding fresh_licenses
find-fresh_licenses plan start zero u h = refl
find-fresh_licenses plan start (suc n) u h =
    ground (arith, find-fresh_licenses plan (start + 1) n u)

fresh_licenses-DistinctKeys : (plan start n : ℕ) → DistinctKeys (fresh_licenses plan start n)
unfolding fresh_licenses
fresh_licenses-DistinctKeys plan start zero = tt
fresh_licenses-DistinctKeys plan start (suc n) = (
  find-fresh_licenses plan (start + 1) n start (omega arith),
  fresh_licenses-DistinctKeys plan (start + 1) n,
)

fresh_licenses_issued :
    (plan start n bound : ℕ)
    → start + n ≤ bound
    → All (λ (l : License). l.uuid < bound) (fresh_licenses plan start n)
unfolding fresh_licenses
fresh_licenses_issued plan start zero bound h = tt
fresh_licenses_issued plan start (suc n) bound h =
    (omega arith, fresh_licenses_issued plan (start + 1) n bound (omega arith))

fresh_licenses_linked :
    (plan start n : ℕ) (plans : List Plan)
    → is_some (find plan plans) ≡ true
    → All (HasPlan plans) (fresh_licenses plan start n)
unfolding fresh_licenses
fresh_licenses_linked plan start zero plans h = tt
fresh_licenses_linked plan start (suc n) plans h =
    (h, fresh_licenses_linked plan (start + 1) n plans h)

-- Creating licenses of a plan that exists.
pub grown-IsSound :
    (plan n : ℕ) (w : World)
    → IsSound w
    → is_some (find plan w.plans) ≡ true
    → IsSound (grown plan n w)
grown-IsSound plan n w s h =
    let created = fresh_licenses plan w.next_uuid n in
    let bound = w.next_uuid + n in
    record {
      keys =
          append-DistinctKeys w.next_uuid w.licenses created s.keys
            (fresh_licenses-DistinctKeys plan w.next_uuid n) s.issued
            (λ u. find-fresh_licenses plan w.next_uuid n u);
      issued =
          All-append (λ (l : License). l.uuid < bound) w.licenses created
            (All-map_imp (λ (l : License). l.uuid < w.next_uuid) (λ (l : License). l.uuid < bound)
              w.licenses (λ l b. omega arith) s.issued)
            (fresh_licenses_issued plan w.next_uuid n bound (omega arith));
      linked =
          All-append (HasPlan w.plans) w.licenses created s.linked
            (fresh_licenses_linked plan w.next_uuid n w.plans h);
    }
