-- ===== src/Revocation/Effect.antt =====
-- `revoke_license` in closed form, and what it leaves alone.
use license_manager.Base.{◌≡◌, not, ◌&&◌, some, arith, if◌then◌else◌}
use license_manager.Base.Table.{find, upsert}
use license_manager.Models.{
  License, Plan, is_activated, is_revocable, has_revocations_remaining, license_keyed, plan_keyed,
}
use license_manager.Store.{World, ok, err, revocation_limit_reached, status_not_revocable}
use license_manager.Store.Counts.{
  grown, as_revoked, with_revoked, revoke_lem, increase_num_licenses_lem,
}
use license_manager.Revocation.{Revocation, revoke_license, charge}

-- The world after the plan was charged for an activated license.
abbrev pub charged : License → Plan → World → World
charged l p w = record w {
  db = record w.db {
    plans =
        if is_activated l.status && p.is_revocation_cap_enabled
        then upsert (charge p) w.plans
        else w.plans;
  };
}

abbrev pub revoked_world : License → Plan → World → World
revoked_world l p w = grown l.subscription_plan 1 (with_revoked l (charged l p w))

abbrev pub revocation_of : License → World → Revocation
revocation_of l w = record { revoked_license = as_revoked l w.now; original_status = l.status }

module _ (l : License) (p : Plan) (w : World) (row : find l.uuid w.licenses ≡ some l)
    (plan : find l.subscription_plan w.plans ≡ some p) where
  -- `revoke_license` of a license that is as it was read, and whose plan exists, on every branch,
  -- errors included: what it returns and the world it leaves. An
  -- activated license is refused once the limit is reached, an unassigned or revoked one always; then
  -- nothing changes. Otherwise the license is revoked, the plan is charged if the license was
  -- activated under a cap, and one unassigned license is created.
  pub revoke_license_outcome : revoke_license l w ≡ (
      if not (has_revocations_remaining p w.licenses) && is_activated l.status
      then (err revocation_limit_reached, w)
      else if not (is_revocable l.status)
      then (err status_not_revocable, w)
      else (ok (revocation_of l w), revoked_world l p w))
  unfolding revoke_license
  revoke_license_outcome = ground (
    arith,
    revoke_lem l l (charged l p w) row,
    increase_num_licenses_lem l.subscription_plan 1 (with_revoked l (charged l p w)),
  )
