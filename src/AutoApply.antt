-- ===== src/AutoApply.antt =====
-- Licenses that learners take by themselves: `auto_applicable_subscription`
-- (subscriptions/models.py) and `auto_apply` with its helpers (api/v1/views.py). The call of Braze,
-- whose errors the code swallows, and the serialized license of the response are not modelled.
pub mod Outcome
mod Tests
use license_manager.Base.{
  ℕ, Bool, true, false, not, ◌&&◌, Option, none, some, List, [], ◌∷◌, exists, first, order_by,
  select, count, is_some, same, leb, ◌==◌, if◌then◌else◌,
}
use license_manager.Models.{
  License, Plan, activated, is_revoked, is_current, in_plan, unassigned_in, license_activated,
  license_not_assigned,
}
use license_manager.Store.{
  Action, World, Result, ok, err, Event, pure, gets, emit, delay, take_uuids, get_agreement,
  save_license, track_license_changes, Task, utilization_threshold_email,
  auto_applied_license_email, ◌>>=◌, ◌>>◌,
}
use license_manager.Renewal.{auto_applies}
use license_manager.Assignment.{taken_by}

-- The latest current plan of the agreement whose licenses are applied automatically
unfoldable pub auto_applicable_subscription : ℕ → World → Option Plan
unfolding is_current
auto_applicable_subscription agreement w =
    first (λ p. true)
      (order_by (λ p q. leb q.start_date p.start_date)
        (select
          (λ p.
            p.customer_agreement == agreement
            && auto_applies p
            && p.is_active
            && is_current w.now p)
          w.plans))

abbrev pub revoked_of : ℕ → ℕ → License → Bool
revoked_of plan email l = in_plan plan l && same l.user_email (some email) && is_revoked l.status

-- `_check_subscription_licenses`: the status of the response, where it makes one
unfoldable pub check_subscription_licenses : Plan → ℕ → ℕ → Action (Option ℕ)
check_subscription_licenses p user_email lms_user_id = do
  was_revoked ← gets (λ w. exists (revoked_of p.uuid user_email) w.licenses)
  has_one ← gets (λ w. exists (taken_by p.uuid user_email) w.licenses)
  available ← gets (λ w. count (unassigned_in p.uuid) w.licenses)
  if was_revoked
      then pure (some 422)
      else if has_one
      then pure (some 200)
      else if available == 0
      then (emit (record { name = license_not_assigned; user = some lms_user_id; license = none })
          >> pure (some 422))
      else pure none

abbrev pub auto_applied_to : ℕ → ℕ → ℕ → ℕ → License → License
auto_applied_to now key email user l = record l {
  user_email = some email;
  lms_user_id = some user;
  status = activated;
  activation_key = some key;
  activation_date = some now;
  assigned_date = some now;
  last_remind_date = some now;
  auto_applied = some true;
}

-- The case of `_auto_apply_new_license` in which there is an unassigned license
unfoldable pub apply_to : License → Plan → ℕ → ℕ → Action (Option License)
apply_to l p user_email lms_user_id = do
  now ← gets (λ w. w.now)
  key ← take_uuids 1
  let l' = auto_applied_to now key user_email lms_user_id l
  save_license l'
  track_license_changes license_activated (l' ∷ [])
  delay (utilization_threshold_email p.uuid)
  pure (some l')

-- `_auto_apply_new_license`
unfoldable pub auto_apply_new_license : Plan → ℕ → ℕ → Action (Option License)
auto_apply_new_license p user_email lms_user_id = do
  found ← gets (λ w. first (unassigned_in p.uuid) w.licenses)
  elim found [ none ↦ pure none | some l ↦ apply_to l p user_email lms_user_id ]

-- `auto_apply`, on the plan that was found
unfoldable pub auto_apply_in : Plan → ℕ → ℕ → ℕ → Action ℕ
auto_apply_in p enterprise user_email lms_user_id = do
  answer ← check_subscription_licenses p user_email lms_user_id
  elim answer [
    | some status ↦ pure status
    | none ↦
        auto_apply_new_license p user_email lms_user_id
        >> delay (auto_applied_license_email enterprise (some user_email))
        >> pure 200
  ]

-- `auto_apply`: the status of the response
unfoldable pub auto_apply : ℕ → ℕ → ℕ → Action ℕ
auto_apply agreement user_email lms_user_id = do
  a ← get_agreement agreement
  found ← gets (auto_applicable_subscription a.uuid)
  elim found [
    | none ↦ pure 422
    | some p ↦ auto_apply_in p a.enterprise_customer_uuid user_email lms_user_id
  ]
