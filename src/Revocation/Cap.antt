-- ===== src/Revocation/Cap.antt =====
-- The revocation cap and the invariant of the database under `revoke_license`.
use license_manager.Base.{
  ℕ, ◌+◌, ◌≤◌, ◌<◌, ◌≡◌, true, some, arith, not, ◌&&◌, Bool-cases, inl, inr, ◌⊎◌,
}
use license_manager.Base.Table.{find, find-upsert_self, find-upsert_ne, key-find, All-find}
use license_manager.Models.{
  License, Plan, is_activated, is_revocable, license_keyed, plan_keyed, num_licenses,
  num_revocations_allowed, has_revocations_remaining,
}
use license_manager.Store.{World}
use license_manager.Store.Sound.{IsSound, HasPlan, upsert-IsSound, save_plan-IsSound, grown-IsSound}
use license_manager.Store.Counts.{as_revoked, with_revoked}
use license_manager.Revocation.{revoke_license, charge}
use license_manager.Revocation.Effect.{charged, revoked_world, revoke_license_outcome}
use license_manager.Revocation.Pool.{num_licenses-revoke_license}

-- No more revocations were counted against the plan `u` than its cap allows.
pub record IsWithinCap (u : ℕ) (w : World) : Type 0 where
  pub within :
      (p : Plan)
      → find u w.plans ≡ some p
      → p.is_revocation_cap_enabled ≡ true
      → p.num_revocations_applied
        ≤ num_revocations_allowed (num_licenses u w.licenses) p.revoke_max_percentage

room_to_charge :
    (p : Plan) (w : World)
    → p.is_revocation_cap_enabled ≡ true
    → has_revocations_remaining p w.licenses ≡ true
    → p.num_revocations_applied + 1
      ≤ num_revocations_allowed (num_licenses p.uuid w.licenses) p.revoke_max_percentage
unfolding has_revocations_remaining
room_to_charge p w enabled h = ground arith

module _ (l : License) (p : Plan) (w : World) (row : find l.uuid w.licenses ≡ some l)
    (plan : find l.subscription_plan w.plans ≡ some p) where
  -- The plan of any uuid after a revocation that was charged or not.
  find-charged :
      (u : ℕ) (p' : Plan)
      → find u (charged l p w).plans ≡ some p'
      → ((is_activated l.status ≡ true)
          × (p.is_revocation_cap_enabled ≡ true)
          × (u ≡ p.uuid)
          × (p' ≡ charge p))
        ⊎ (find u w.plans ≡ some p')
  find-charged u p' e = grind (
    arith,
    find-upsert_self (charge p) w.plans,
    find-upsert_ne (charge p) u w.plans,
    key-find l.subscription_plan w.plans plan,
  )

  charged_within :
      (u : ℕ)
      → IsWithinCap u w
      → (is_activated l.status ≡ true → has_revocations_remaining p w.licenses ≡ true)
      → (p' : Plan) → find u (charged l p w).plans ≡ some p'
      → p'.is_revocation_cap_enabled ≡ true
      → p'.num_revocations_applied
        ≤ num_revocations_allowed (num_licenses u w.licenses) p'.revoke_max_percentage
  charged_within u h room p' e enabled = elim (find-charged u p' e) [
    | inr unchanged ↦ h.within p' unchanged enabled
    | inl (active, capped, here, same_plan) ↦
        rw (same_plan, here) (room_to_charge p w capped (room active))
  ]

  -- The plans are charged only where the limit leaves room.
  plans-revoke_license :
      ((is_activated l.status ≡ true → has_revocations_remaining p w.licenses ≡ true)
        × ((revoke_license l w).1.plans ≡ (charged l p w).plans))
      ⊎ ((revoke_license l w).1.plans ≡ w.plans)
  plans-revoke_license = rw (revoke_license_outcome l p w row plan) (ground arith)

  -- Whatever `revoke_license` returns for a license that is as it was read and whose plan exists,
  -- no plan goes over its revocation cap: if the revocations counted against a capped plan were
  -- within what its percentage allows, they still are.
  pub revoke_license-IsWithinCap : (u : ℕ) → IsWithinCap u w → IsWithinCap u (revoke_license l w).1
  revoke_license-IsWithinCap u h = record {
    within = λ p' e enabled.
        rw (num_licenses-revoke_license l p w u row plan) (elim plans-revoke_license [
          | inl (room, after) ↦ charged_within u h room p' (rw after at e) enabled
          | inr after ↦ h.within p' (rw after at e) enabled
        ]);
  }

  charged-IsSound : IsSound w → IsSound (charged l p w)
  charged-IsSound s = elim (Bool-cases (is_activated l.status && p.is_revocation_cap_enabled)) [
    | inl charge_it ↦ rw charge_it (save_plan-IsSound (charge p) w s)
    | inr free ↦ rw free s
  ]

  charged_linked : IsSound w → HasPlan (charged l p w).plans l
  charged_linked s =
      All-find (HasPlan (charged l p w).plans) l.uuid w.licenses (charged-IsSound s).linked row

  revoked_world-IsSound : IsSound w → IsSound (revoked_world l p w)
  revoked_world-IsSound s =
      let saved =
        upsert-IsSound (as_revoked l w.now) (charged l p w) (charged-IsSound s)
          (All-find (λ (x : License). x.uuid < w.next_uuid) l.uuid w.licenses s.issued row)
          (charged_linked s) in
      grown-IsSound l.subscription_plan 1 (with_revoked l (charged l p w))
        (record { keys = saved.keys; issued = saved.issued; linked = saved.linked })
        (charged_linked s)

  -- Whatever `revoke_license` returns for a license that is as it was read and whose plan exists, the
  -- invariant of the database holds after it if it held before.
  pub revoke_license-IsSound : IsSound w → IsSound (revoke_license l w).1
  revoke_license-IsSound s =
      rw (revoke_license_outcome l p w row plan)
        (elim (Bool-cases (not (has_revocations_remaining p w.licenses) && is_activated l.status)) [
          | inl limited ↦ rw limited s
          | inr room ↦ rw room (elim (Bool-cases (is_revocable l.status)) [
            | inl revocable ↦ rw revocable (revoked_world-IsSound s)
            | inr refused ↦ rw refused s
          ])
        ])
