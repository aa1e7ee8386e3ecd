-- ===== src/Store.antt =====
-- The state that the application reads and writes, and the methods of models.py that write it: the
-- database, the tracking events and Celery tasks that were sent, and the cache.
-- A row's own validation by Django (types, lengths, choices, email syntax) is not modelled: the rows'
-- types stand for it. The instant `now` stays the same during one operation.
mod Monad
pub mod Counts
pub mod Sound
pub mod Changed
pub use Monad.*
use license_manager.Base.{
  ℕ, zero, suc, ◌+◌, Bool, true, false, not, ◌&&◌, Option, none, some, List, [], ◌∷◌, ◌++◌, exists,
  select, length, is_some, same, ◌==◌, if◌then◌else◌,
}
use license_manager.Base.Table.{find, upsert}
use license_manager.Models.{
  License, Plan, Agreement, license_keyed, plan_keyed, agreement_keyed, new_license, revoked,
  is_assigned, is_activated, is_revocable, in_plan, LicenseSource, EventName, license_created,
  license_assigned, license_activated, license_revoked,
}

-- `track_event(lms_user_id, event_name, get_license_tracking_properties(license))`
unfoldable pub track_event : EventName → License → Action Unit
track_event name l = emit (record { name = name; user = l.lms_user_id; license = some l.uuid })

-- `track_license_changes` for one event after another
unfoldable pub track_license_changes : EventName → List License → Action Unit
unfolding track_event
track_license_changes name [] = pure tt
track_license_changes name (l ∷ rest) = track_event name l >> track_license_changes name rest

-- What `License.clean` looks for: another assigned or activated license of the same email and plan.
abbrev pub conflicts : License → License → Bool
conflicts l other =
    same other.user_email l.user_email
    && is_revocable other.status
    && other.subscription_plan == l.subscription_plan
    && not (other.uuid == l.uuid)

-- Django compares a null email by IS NULL, so two licenses without an email are alike here.
unfoldable pub clean : License → List License → Bool
clean l rows = not (is_revocable l.status && exists (conflicts l) rows)

-- `dispatch_license_create_events`
dispatch_license_create_events : License → Action Unit
unfolding track_event
dispatch_license_create_events l = do
  track_event license_created l
  when (is_assigned l.status) (track_event license_assigned l)
  when (is_activated l.status) (track_event license_activated l)

-- `License.save`: `full_clean`, the write, then the signal for a new row.
unfoldable pub save_license : License → Action Unit
unfolding clean dispatch_license_create_events
save_license l = do
  rows ← gets (λ w. w.licenses)
  raise_if (not (clean l rows)) validation_error
  put_license l
  when (not (is_some (find l.uuid rows))) (dispatch_license_create_events l)

unfoldable pub save_plan : Plan → Action Unit
save_plan p = modify_db (λ db. record db { plans = upsert p db.plans })

-- `SubscriptionPlan.objects.get(uuid=...)`, and the foreign key of a license
unfoldable pub get_plan : ℕ → Action Plan
get_plan u = do found ← gets (λ w. find u w.plans); or_raise found does_not_exist

unfoldable pub get_agreement : ℕ → Action Agreement
get_agreement u = do found ← gets (λ w. find u w.agreements); or_raise found does_not_exist

-- The `n` licenses that one call creates, under fresh keys.
unfoldable pub fresh_licenses : ℕ → ℕ → ℕ → List License
fresh_licenses plan start zero = []
fresh_licenses plan start (suc n) = new_license plan start ∷ fresh_licenses plan (start + 1) n

-- `increase_num_licenses`, with `License.bulk_create` and its events
unfoldable pub increase_num_licenses : ℕ → ℕ → Action Unit
increase_num_licenses plan n = do
  start ← take_uuids n
  let created = fresh_licenses plan start n
  modify_db (λ db. record db { licenses = db.licenses ++ created })
  track_license_changes license_created created

-- `License.revoke`
unfoldable pub revoke : License → Action License
revoke l = do
  now ← gets (λ w. w.now)
  let l' = record l { status = revoked; revoked_date = some now }
  save_license l'
  track_event license_revoked l'
  pure l'

-- `License.delete_source`; a license has at most one source
unfoldable pub delete_source : License → Action Unit
delete_source l =
    modify_db (λ db. record db { sources = select (λ s. not (s.license == l.uuid)) db.sources })

-- `License.bulk_update`: the rows are written with no validation and no signal.
unfoldable pub bulk_update : List License → Action Unit
bulk_update [] = pure tt
bulk_update (l ∷ rest) = put_license l >> bulk_update rest
