-- ===== src/Revocation/Whole.antt =====
-- Revoking every license of a plan (`revoke_all_licenses_task`).
use license_manager.Base.{
  ℕ, suc, ◌+◌, ◌≡◌, refl, true, false, some, arith, count, List, [], ◌∷◌, All, length, select,
  select-All, length-select, ap, sym, ◌∙◌,
}
use license_manager.Base.Table.{find}
use license_manager.Base.Table.Keys.{
  DistinctKeys, IsLoaded, IsLoaded-upsert, select-IsLoaded, select-DistinctKeys,
}
use license_manager.Models.{
  License, Plan, is_revocable, license_keyed, plan_keyed, unassigned_in, revocable_in, num_licenses,
  has_revocations_remaining,
}
use license_manager.Store.{World, Result, ok, fresh_licenses}
use license_manager.Store.Sound.{IsSound}
use license_manager.Store.Counts.{as_revoked}
use license_manager.Revocation.{Revocation, revoke_license, revoke_each, revoke_plan}
use license_manager.Revocation.Effect.{revocation_of, revoked_world, revoke_license_outcome}
use license_manager.Revocation.Pool.{
  num_licenses-revoke_license, unassigned-revoked_world, revocable-revoked_world,
}

-- A world after `n` licenses of the plan `u` were revoked: the pool has grown by as many, and no plan
-- reports another number of licenses.
pub record IsReplaced (u n : ℕ) (before after : World) : Type 0 where
  pub pool : count (unassigned_in u) after.licenses ≡ count (unassigned_in u) before.licenses + n
  pub taken : count (revocable_in u) after.licenses + n ≡ count (revocable_in u) before.licenses
  pub reported : (q : ℕ) → num_licenses q after.licenses ≡ num_licenses q before.licenses

module _ (u : ℕ) (p : Plan) (uncapped : p.is_revocation_cap_enabled ≡ false) where
  -- One turn of the loop: without a cap nothing is refused.
  revoke_license_uncapped :
      (l : License) (w : World)
      → find u w.plans ≡ some p
      → find l.uuid w.licenses ≡ some l
      → revocable_in u l ≡ true
      → revoke_license l w ≡ (ok (revocation_of l w), revoked_world l p w)
  unfolding has_revocations_remaining
  revoke_license_uncapped l w plan row h =
      let here : l.subscription_plan ≡ u = ground arith in
      rw (revoke_license_outcome l p w row (rw here plan)) (ground arith)

  plans-revoked_world : (l : License) (w : World) → (revoked_world l p w).plans ≡ w.plans
  plans-revoked_world l w = ground arith

  IsReplaced-one :
      (l : License) (w : World)
      → find l.uuid w.licenses ≡ some l
      → revocable_in u l ≡ true
      → find u w.plans ≡ some p
      → IsReplaced u 1 w (revoked_world l p w)
  IsReplaced-one l w row h plan =
      let here : l.subscription_plan ≡ u = ground arith in
      let revocable : is_revocable l.status ≡ true = ground arith in
      record {
        pool = ground (arith, unassigned-revoked_world l p w row revocable u);
        taken = ground (arith, revocable-revoked_world l p w row revocable u);
        reported = λ q.
            ap (λ (out : Result Revocation × World). num_licenses q out.1.licenses)
              (sym (revoke_license_uncapped l w plan row h))
            ∙ num_licenses-revoke_license l p w q row (rw here plan);
      }

  IsReplaced-suc :
      {a b c : World} (n : ℕ) → IsReplaced u 1 a b → IsReplaced u n b c → IsReplaced u (suc n) a c
  IsReplaced-suc n x y = record {
    pool = omega (arith, x.pool, y.pool);
    taken = omega (arith, x.taken, y.taken);
    reported = λ q. y.reported q ∙ x.reported q;
  }

  revoke_each_lem :
      (ls : List License) (w : World)
      → find u w.plans ≡ some p
      → All (IsLoaded w.licenses) ls
      → DistinctKeys ls
      → All (λ l. revocable_in u l ≡ true) ls
      → (results : List Revocation) × ((revoke_each ls w).0 ≡ ok results)
        × (length results ≡ length ls)
        × IsReplaced u (length ls) w (revoke_each ls w).1
  unfolding revoke_each
  revoke_each_lem [] w plan loaded distinct ours =
      ([], refl, refl, record { pool = omega arith; taken = omega arith; reported = λ q. refl })
  revoke_each_lem (l ∷ ls) w plan loaded distinct ours =
      let w' = revoked_world l p w in
      let here : l.subscription_plan ≡ u = ground arith in
      let (results, same, n, rest) =
        revoke_each_lem ls w' (rw (plans-revoked_world l w) plan)
          (IsLoaded-upsert (as_revoked l w.now) w.licenses
            (fresh_licenses l.subscription_plan w.next_uuid 1) ls distinct.0 loaded.1)
          distinct.1 ours.1 in
      let step : revoke_each (l ∷ ls) w
          ≡ (ok (revocation_of l w ∷ results), (revoke_each ls w').1) =
        ground (arith, revoke_license_uncapped l w plan loaded.0 ours.0, same) in
      (
        revocation_of l w ∷ results,
        rw step,
        ap suc n,
        rw step (IsReplaced-suc (length ls) (IsReplaced-one l w loaded.0 ours.0 plan) rest),
      )

-- Under the invariant, the task that revokes all licenses of a plan without a cap succeeds: it
-- revokes as many licenses as were assigned or activated in the plan, afterwards none is, the pool
-- of unassigned licenses has grown by as many, and no plan reports another number of licenses.
pub revoke_plan_whole :
    (u : ℕ) (p : Plan) (w : World)
    → IsSound w
    → find u w.plans ≡ some p
    → p.is_revocation_cap_enabled ≡ false
    → (results : List Revocation) × ((revoke_plan u w).0 ≡ ok results)
      × (length results ≡ count (revocable_in u) w.licenses)
      × (count (revocable_in u) (revoke_plan u w).1.licenses ≡ 0)
      × IsReplaced u (count (revocable_in u) w.licenses) w (revoke_plan u w).1
unfolding revoke_plan
revoke_plan_whole u p w sound plan uncapped =
    let ls = select (revocable_in u) w.licenses in
    let (results, same, n, all) =
      revoke_each_lem u p uncapped ls w plan
        (select-IsLoaded (revocable_in u) w.licenses sound.keys)
        (select-DistinctKeys (revocable_in u) w.licenses sound.keys)
        (select-All (revocable_in u) w.licenses) in
    let size = length-select (revocable_in u) w.licenses in
    let step : revoke_plan u w ≡ (ok results, (revoke_each ls w).1) = ground (arith, same) in
    (
      results,
      rw step,
      n ∙ size,
      rw step (omega (arith, all.taken, size)),
      rw step (rw (← size) all),
    )
