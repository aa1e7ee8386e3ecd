-- ===== src/Revocation/Pool.antt =====
-- Revoking replaces a license by an unassigned one of the same plan: what this does to the numbers of
-- licenses that the plans report.
use license_manager.Base.{
  ℕ, ◌+◌, ◌≡◌, true, false, some, arith, count, ◌==◌, Bool-cases, inl, inr, to_ℕ,
}
use license_manager.Base.Table.{find, count-upsert}
use license_manager.Models.{
  License, Plan, is_revocable, license_keyed, plan_keyed, unassigned_in, revocable_in, unrevoked_in,
  num_licenses,
}
use license_manager.Store.{World}
use license_manager.Store.Counts.{as_revoked, with_revoked, count-grown}
use license_manager.Revocation.{revoke_license}
use license_manager.Revocation.Effect.{charged, revoked_world, revoke_license_outcome}

module _ (l : License) (p : Plan) (w : World) (row : find l.uuid w.licenses ≡ some l)
    (revocable : is_revocable l.status ≡ true) (q : ℕ) where
  pub unrevoked-revoked_world :
      count (unrevoked_in q) (revoked_world l p w).licenses ≡ count (unrevoked_in q) w.licenses
  unrevoked-revoked_world = ground (
    arith,
    count-grown (unrevoked_in q) (l.subscription_plan == q) l.subscription_plan 1
        (with_revoked l (charged l p w)) (λ u. ground arith),
    count-upsert (unrevoked_in q) (as_revoked l w.now) l w.licenses row,
  )

  pub unassigned-revoked_world :
      count (unassigned_in q) (revoked_world l p w).licenses
      ≡ count (unassigned_in q) w.licenses + to_ℕ (l.subscription_plan == q)
  unassigned-revoked_world = ground (
    arith,
    count-grown (unassigned_in q) (l.subscription_plan == q) l.subscription_plan 1
        (with_revoked l (charged l p w)) (λ u. ground arith),
    count-upsert (unassigned_in q) (as_revoked l w.now) l w.licenses row,
  )

  pub revocable-revoked_world :
      count (revocable_in q) (revoked_world l p w).licenses + to_ℕ (l.subscription_plan == q)
      ≡ count (revocable_in q) w.licenses
  revocable-revoked_world = ground (
    arith,
    count-grown (revocable_in q) false l.subscription_plan 1 (with_revoked l (charged l p w))
        (λ u. ground arith),
    count-upsert (revocable_in q) (as_revoked l w.now) l w.licenses row,
  )

-- Whatever `revoke_license` returns for a license that is as it was read and whose plan exists, the
-- number of licenses that any plan reports, which leaves out the revoked ones, stays the same.
pub num_licenses-revoke_license :
    (l : License) (p : Plan) (w : World) (q : ℕ)
    → find l.uuid w.licenses ≡ some l
    → find l.subscription_plan w.plans ≡ some p
    → num_licenses q (revoke_license l w).1.licenses ≡ num_licenses q w.licenses
unfolding num_licenses
num_licenses-revoke_license l p w q row plan =
    rw (revoke_license_outcome l p w row plan) (elim (Bool-cases (is_revocable l.status)) [
      | inl revocable ↦ ground (arith, unrevoked-revoked_world l p w row revocable q)
      | inr refused ↦ ground arith
    ])
