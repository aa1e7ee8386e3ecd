-- ===== src/Reminders.antt =====
-- Reminding learners of licenses that wait for activation: the endpoints `remind` and `remind_all`
-- (api/v1/views.py), and the task `send_reminder_email_task` with
-- `_batch_notify_or_remind_assigned_emails` (api/tasks.py). The payload's filters are given by what
-- they select; `service` says of the emails of one message whether the services that it goes
-- through fail.
pub mod Batch
pub mod Emails
pub mod Whole
mod Tests
use license_manager.Base.{
  ℕ, Bool, true, false, not, ◌&&◌, Option, none, some, List, [], ◌∷◌, exists, select, map, length,
  order_by, is_some, same, ltb, leb, ◌==◌, if◌then◌else◌,
}
use license_manager.Base.Table.{find}
use license_manager.Base.Pages.{by_key}
use license_manager.Models.{License, Plan, in_plan, is_assigned, license_keyed, plan_keyed}
use license_manager.Store.{
  World, Action, Result, ok, err, pure, gets, raise_if, delay, get_plan, bulk_update, Task,
  reminder_email, api_error, type_error, ◌>>=◌, ◌>>◌,
}
use license_manager.Provisioning.{chunks}

-- REMINDER_EMAIL_BATCH_SIZE
abbrev pub reminder_email_batch_size : ℕ
reminder_email_batch_size = 50

-- `subscription_plan.assigned_licenses`
abbrev pub assigned_in : ℕ → License → Bool
assigned_in plan l = in_plan plan l && is_assigned l.status

-- `user_email__in=emails`, which no null passes
abbrev pub has_email_in : List (Option ℕ) → License → Bool
has_email_in emails l = is_some l.user_email && exists (λ e. same e l.user_email) emails

abbrev le_email : Option ℕ → Option ℕ → Bool
le_email none e = true
le_email (some a) none = false
le_email (some a) (some b) = leb a b

-- `sorted(emails)`: None is not ordered against anything.
unfoldable pub sorted : List (Option ℕ) → Action (List (Option ℕ))
sorted emails = do
  raise_if (ltb 1 (length emails) && exists (λ e. not (is_some e)) emails) type_error
  pure (order_by le_email emails)

-- The loop over the chunks
unfoldable pub send_reminders : ℕ → List (List (Option ℕ)) → Action Unit
unfolding sorted
send_reminders plan [] = pure tt
send_reminders plan (chunk ∷ rest) = do
  emails ← sorted chunk
  delay (reminder_email emails plan)
  send_reminders plan rest

abbrev pub email_of : License → Option ℕ
email_of l = l.user_email

unfoldable pub remind_all : ℕ → Action ℕ
unfolding get_plan send_reminders
remind_all plan = do
  subscription_plan ← get_plan plan
  emails ← gets (λ w. map email_of (select (assigned_in subscription_plan.uuid) w.licenses))
  if not (exists (λ e. true) emails)
      then pure 404
      else (send_reminders plan (chunks emails reminder_email_batch_size) >> pure 204)

pub record RemindRequest : Type 0 where
  pub user_emails : List ℕ
  pub filters : License → Bool

-- The emails to remind; `none` where one of them has no license that waits for activation
unfoldable pub requested_for_reminder : RemindRequest → ℕ → List License → Option (List (Option ℕ))
requested_for_reminder request plan licenses = elim request.user_emails [
  | [] ↦ some (
      map email_of
        (select (λ l. (in_plan plan l && request.filters l) && is_assigned l.status) licenses))
  | _ ∷ _ ↦
      if exists (λ e. not (exists (λ l. assigned_in plan l && same (some e) l.user_email) licenses))
        request.user_emails
      then none
      else some (map some request.user_emails)
]

unfoldable pub remind : RemindRequest → ℕ → Action ℕ
unfolding send_reminders requested_for_reminder
remind request plan = do
  found ← gets (λ w. find plan w.plans)
  licenses ← gets (λ w. w.licenses)
  elim found [
    | none ↦ pure 404
    | some p ↦ elim (requested_for_reminder request p.uuid licenses) [
      | none ↦ pure 404
      | some emails ↦ send_reminders plan (chunks emails reminder_email_batch_size) >> pure 204
    ]
  ]

-- `License.set_date_fields_to_now(licenses, ['last_remind_date'])`
abbrev pub reminded_at : ℕ → License → License
reminded_at now l = record l { last_remind_date = some now }

-- `_batch_notify_or_remind_assigned_emails`: the licenses that the message was sent for
unfoldable pub batch_notify_or_remind :
    (service : List (Option ℕ) → Bool) (allowed_batch_size : ℕ)
    → List (Option ℕ)
    → ℕ
    → Action (List License)
unfolding get_plan
batch_notify_or_remind service allowed_batch_size emails plan = do
  subscription_plan ← get_plan plan
  pending_licenses ← gets (λ w.
      order_by by_key
        (select (λ l. assigned_in subscription_plan.uuid l && has_email_in emails l) w.licenses))
  raise_if (ltb allowed_batch_size (length pending_licenses)) api_error
  raise_if
      (exists (λ (l : License). true) pending_licenses && service (map email_of pending_licenses))
      api_error
  pure pending_licenses

unfoldable pub send_reminder_email_task :
    (service : List (Option ℕ) → Bool) → List (Option ℕ) → ℕ → Action Unit
unfolding batch_notify_or_remind
send_reminder_email_task service emails plan = do
  pending_licenses ← batch_notify_or_remind service reminder_email_batch_size emails plan
  now ← gets (λ w. w.now)
  bulk_update (map (reminded_at now) pending_licenses)

-- The queued reminders, run one after the other
unfoldable pub run_reminders : (service : List (Option ℕ) → Bool) → List Task → Action Unit
unfolding send_reminder_email_task
run_reminders service [] = pure tt
run_reminders service (reminder_email emails plan ∷ rest) =
    send_reminder_email_task service emails plan >> run_reminders service rest
run_reminders service (_ ∷ rest) = run_reminders service rest
