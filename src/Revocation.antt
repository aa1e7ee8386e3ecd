-- ===== src/Revocation.antt =====
-- Revoking licenses: `revoke_license` (license_manager/apps/subscriptions/api.py), the audit row and
-- the tasks that follow and the task that revokes a whole plan (license_manager/apps/api/tasks.py).
-- The views are in Revocation/Views.
pub mod Effect
pub mod Pool
pub mod Cap
pub mod Whole
pub mod Views
mod Tests
use license_manager.Base.{
  ℕ, ◌+◌, Bool, true, false, not, ◌&&◌, Option, none, some, List, [], ◌∷◌, ◌++◌, exists, select,
  same, ◌==◌, if◌then◌else◌,
}
use license_manager.Models.{
  License, Plan, Status, is_activated, is_revocable, revocable_in, has_revocations_remaining,
  ActionType, revoked_action, ActorType, ActionSource, LicenseAction, Metadata, of_revocation,
  plan_keyed,
}
use license_manager.Store.{
  World, Action, pure, gets, ◌>>=◌, ◌>>◌, raise_if, when, atomic, modify_db, delay,
  revocation_limit_reached, status_not_revocable, revoke_course_enrollments, revocation_cap_email,
  get_plan, get_agreement, save_plan, revoke, increase_num_licenses,
}

-- What `revoke_license` returns.
pub record Revocation : Type 0 where
  pub revoked_license : License
  pub original_status : Status

abbrev pub charge : Plan → Plan
charge p = record p { num_revocations_applied = p.num_revocations_applied + 1 }

pub revoke_license : License → Action Revocation
unfolding get_plan save_plan
revoke_license user_license = do
  plan ← get_plan user_license.subscription_plan
  remaining ← gets (λ w. has_revocations_remaining plan w.licenses)
  raise_if (not remaining && is_activated user_license.status) revocation_limit_reached
  raise_if (not (is_revocable user_license.status)) status_not_revocable
  when (is_activated user_license.status && plan.is_revocation_cap_enabled)
      (save_plan (charge plan))
  revoked_license ← revoke user_license
  increase_num_licenses user_license.subscription_plan 1
  pure (record { revoked_license = revoked_license; original_status = user_license.status })

-- Who asked for it, and from where: the keyword arguments that the audit row copies.
pub record Actor : Type 0 where
  pub actor_type : ActorType
  pub lms_user_id : Option ℕ
  pub source : ActionSource
  pub correlation_id : Option ℕ

-- The query of `execute_post_revocation_tasks` for an audit row under the same key.
abbrev audited : License → Option ℕ → LicenseAction → Bool
audited l key a =
    a.license == l.uuid
    && elim a.action_type [ ActionType.revoked_action ↦ true | _ ↦ false ]
    && elim a.metadata [ Metadata.of_revocation status k ↦ same k key | _ ↦ false ]

abbrev already_audited : License → Option ℕ → List LicenseAction → Bool
already_audited l none actions = false
already_audited l (some c) actions = exists (audited l (some c)) actions

-- `execute_post_revocation_tasks`, where writing the audit row does not fail.
pub execute_post_revocation_tasks : Revocation → Actor → Action Unit
unfolding get_plan get_agreement
execute_post_revocation_tasks result actor = do
  let l = result.revoked_license
  plan ← get_plan l.subscription_plan
  agreement ← get_agreement plan.customer_agreement
  seen ← gets (λ w. already_audited l actor.correlation_id w.actions)
  when (not seen) do
    modify_db (λ db. record db {
      actions =
          db.actions
          ++ record {
            license = l.uuid;
            subscription_plan = l.subscription_plan;
            enterprise_customer_uuid = agreement.enterprise_customer_uuid;
            action_type = revoked_action;
            actor_type = actor.actor_type;
            actor_lms_user_id = actor.lms_user_id;
            learner_lms_user_id = l.lms_user_id;
            learner_email = l.user_email;
            learner_external_key = none;
            source = actor.source;
            correlation_id = actor.correlation_id;
            metadata = of_revocation result.original_status actor.correlation_id;
          }
            ∷ [];
    })
    when (is_activated result.original_status)
        (delay (revoke_course_enrollments l.lms_user_id agreement.enterprise_customer_uuid))
    remaining ← gets (λ w. has_revocations_remaining plan w.licenses)
    when (not remaining) (delay (revocation_cap_email l.subscription_plan))

-- The loop of `revoke_all_licenses_task`; an exception of one license ends it.
unfoldable pub revoke_each : List License → Action (List Revocation)
revoke_each [] = pure []
revoke_each (l ∷ rest) = do
  result ← revoke_license l
  results ← revoke_each rest
  pure (result ∷ results)

unfoldable pub follow_up_each : Actor → List Revocation → Action Unit
follow_up_each actor [] = pure tt
follow_up_each actor (r ∷ rest) = execute_post_revocation_tasks r actor >> follow_up_each actor rest

-- The part of `revoke_all_licenses_task` under `transaction.atomic()`.
pub revoke_plan : ℕ → Action (List Revocation)
unfolding revoke_each
revoke_plan subscription_uuid = atomic do
  licenses ← gets (λ w. select (revocable_in subscription_uuid) w.licenses)
  revoke_each licenses

pub revoke_all_licenses_task : ℕ → Actor → Action Unit
unfolding get_plan
revoke_all_licenses_task subscription_uuid actor = do
  plan ← get_plan subscription_uuid
  results ← revoke_plan subscription_uuid
  follow_up_each actor results
