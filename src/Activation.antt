-- ===== src/Activation.antt =====
-- Activating a license by its activation key: `License.activate`, `get_licenses_by_email`,
-- `license_for_activation` and what they call (subscriptions/models.py), and `LicenseActivationView`
-- (api/v1/views.py). Two licenses share an activation key only if the data says so. The call of
-- Braze, whose errors the code swallows, and the serialized license of the response are not
-- modelled.
pub mod Duplicates
pub mod Outcome
mod Tests
use license_manager.Base.{
  ℕ, Bool, true, false, not, ◌&&◌, Option, none, some, List, [], ◌∷◌, exists, first, select, length,
  order_by, drop, is_some, same, leb, ltb, ◌==◌, if◌then◌else◌,
}
use license_manager.Base.Table.{find}
use license_manager.Models.{
  License, Plan, license_keyed, plan_keyed, is_activated, is_assigned, is_revoked, activated,
  reset_to_unassigned, is_current, license_activated,
}
use license_manager.Store.{
  Action, World, Result, ok, err, Error, pure, raise, gets, or_raise, raise_if, when, delay, Task,
  post_activation_email, save_license, get_plan, get_agreement, track_event, activation_missing,
  license_is_revoked, type_error, ◌>>=◌, ◌>>◌,
}

-- `License.activate`
unfoldable pub activate : ℕ → License → Action License
activate lms_user_id l = do
  now ← gets (λ w. w.now)
  let l' = record l {
    status = activated;
    activation_date = some now;
    lms_user_id = some lms_user_id;
  }
  save_license l'
  pure l'

-- The join of `get_licenses_by_email` with the plan
abbrev pub is_open : ℕ → Option Plan → Bool
is_open now none = false
is_open now (some p) = p.is_active && is_current now p

unfoldable pub get_licenses_by_email : ℕ → World → List License
unfolding is_current
get_licenses_by_email user_email w =
    select
      (λ l. same l.user_email (some user_email) && is_open w.now (find l.subscription_plan w.plans))
      w.licenses

unfoldable pub get_license_by_email_and_activation_key : ℕ → ℕ → Action License
get_license_by_email_and_activation_key user_email activation_key = do
  found ← gets (λ w.
      first (λ l. same l.activation_key (some activation_key)) (get_licenses_by_email user_email w))
  or_raise found activation_missing

-- `for _license in ...: _license.reset_to_unassigned(); _license.save()`
unfoldable pub reset_each : List License → Action Unit
reset_each [] = pure tt
reset_each (l ∷ rest) = save_license (reset_to_unassigned l) >> reset_each rest

-- The newest assignment first, as a stable sort in reverse leaves them; no date is the oldest one.
abbrev pub assigned_later : License → License → Bool
assigned_later a b = elim b.assigned_date [
  | none ↦ true
  | some d ↦ elim a.assigned_date [ none ↦ false | some c ↦ leb d c ]
]

-- `lic.assigned_date or datetime.min` gives a date with a time zone or one without, and Python
-- refuses to compare these. Every sort compares some pair of them when both kinds are there.
abbrev pub mixed_dates : List License → Bool
mixed_dates ls =
    exists (λ l. is_some l.assigned_date) ls && exists (λ l. not (is_some l.assigned_date)) ls

-- The case where none is activated. The list is never empty where the code calls this.
unfoldable pub keep_newest : List License → Action License
keep_newest duplicates = do
  raise_if (mixed_dates duplicates) type_error
  let sorted_licenses = order_by assigned_later duplicates
  reset_each (drop 1 sorted_licenses)
  or_raise (first (λ l. true) sorted_licenses) activation_missing

unfoldable pub keep_activated : License → List License → Action License
keep_activated a duplicates = do
  reset_each (select (λ l. not (l.uuid == a.uuid)) duplicates)
  pure a

-- `_clean_up_duplicate_licenses`
unfoldable pub clean_up_duplicate_licenses : List License → Action License
clean_up_duplicate_licenses duplicates = elim (first (λ l. is_activated l.status) duplicates) [
  | some a ↦ keep_activated a duplicates
  | none ↦ keep_newest duplicates
]

abbrev pub unrevoked_of : ℕ → License → Bool
unrevoked_of plan l = l.subscription_plan == plan && not (is_revoked l.status)

-- The list has the license that was found, so it is not empty where the code takes its head.
unfoldable pub license_for_activation : ℕ → ℕ → Action License
license_for_activation user_email activation_key = do
  l ← get_license_by_email_and_activation_key user_email activation_key
  raise_if (is_revoked l.status) license_is_revoked
  in_plan ←
      gets (λ w. select (unrevoked_of l.subscription_plan) (get_licenses_by_email user_email w))
  if ltb 1 (length in_plan)
      then clean_up_duplicate_licenses in_plan
      else or_raise (first (λ l. true) in_plan) activation_missing

-- `_track_and_notify`
unfoldable pub track_and_notify : License → Action Unit
track_and_notify l = do
  track_event license_activated l
  plan ← get_plan l.subscription_plan
  agreement ← get_agreement plan.customer_agreement
  when (not agreement.disable_onboarding_notifications)
      (delay (post_activation_email agreement.enterprise_customer_uuid l.user_email))

-- `LicenseActivationView.post` for the email and the user of the token, up to its handlers
unfoldable pub activate_by_key : ℕ → ℕ → ℕ → Action License
activate_by_key user_email lms_user_id activation_key = do
  l ← license_for_activation user_email activation_key
  if is_assigned l.status
      then (activate lms_user_id l >>= λ l'. track_and_notify l' >> pure l')
      else pure l

-- `LicenseActivationView.post`: the status of the response
unfoldable pub post : ℕ → ℕ → ℕ → Action ℕ
post user_email lms_user_id activation_key w =
    let (r, w') = activate_by_key user_email lms_user_id activation_key w in
    elim r [
      | ok l ↦ (ok 200, w')
      | err activation_missing ↦ (ok 404, w')
      | err license_is_revoked ↦ (ok 422, w')
      | err e ↦ (err e, w')
    ]
