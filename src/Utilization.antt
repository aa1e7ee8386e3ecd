-- ===== src/Utilization.antt =====
-- Emails to admins about the utilization of a plan: the tasks `send_initial_utilization_email_task`
-- and `send_utilization_threshold_reached_email_task` (api/tasks.py), the thresholds and the time
-- at which automatic application was turned on (models.py), and the command
-- send_license_utilization_emails.py. The history of a plan is a table of django-simple-history:
-- here a list, newest row first, of the flag `should_auto_apply_licenses` and the date of the row.
-- What the email says is not modelled.
pub mod Once
mod Tests
use license_manager.Base.{
  ℕ, ◌+◌, ◌*◌, Bool, true, false, not, ◌&&◌, Option, none, some, List, [], ◌∷◌, ◌++◌, exists, map,
  select, length, is_some, ltb, leb, ◌==◌, if◌then◌else◌,
}
use license_manager.Base.Float.{Double, float, divide, has_quarters}
use license_manager.Models.{
  License, Plan, Agreement, plan_keyed, agreement_keyed, day, num_licenses, num_allocated_licenses,
  is_current, Notification, NotificationType, limited_allocations_remaining,
  no_allocations_remaining, periodic_informational,
}
use license_manager.Store.{
  World, Action, Error, Result, ok, err, pure, raise, gets, raise_if, or_raise, modify_db, atomic,
  delay, get_plan, get_agreement, Task, utilization_message, initial_utilization_email, type_error,
  value_error, ◌>>=◌, ◌>>◌,
}
use license_manager.Renewal.{auto_applies}
use license_manager.Mailing.{call}

-- LICENSE_UTILIZATION_THRESHOLDS, from the highest one
pub data Threshold : Type 0 where
  all_licenses three_quarters : Threshold

-- NOTIFICATION_CHOICE_AND_CAMPAIGN_BY_THRESHOLD
abbrev pub notification_type_of : Threshold → NotificationType
notification_type_of all_licenses = no_allocations_remaining
notification_type_of three_quarters = limited_allocations_remaining

-- `current_utilization >= threshold`, of a double and 1 or 0.75
abbrev pub reaches : Double → Threshold → Bool
reaches utilization all_licenses = has_quarters utilization 4
reaches utilization three_quarters = has_quarters utilization 3

unfoldable pub highest_utilization_threshold_reached : ℕ → List License → Option Threshold
unfolding num_licenses num_allocated_licenses has_quarters divide float
highest_utilization_threshold_reached plan licenses =
    let utilization =
      divide (float (num_allocated_licenses plan licenses)) (float (num_licenses plan licenses)) in
    if num_licenses plan licenses == 0
    then none
    else if reaches utilization all_licenses
    then some all_licenses
    else if reaches utilization three_quarters
    then some three_quarters
    else none

-- `current_and_higher_thresholds_notification_choices`
abbrev pub is_current_or_higher : Threshold → NotificationType → Bool
is_current_or_higher t no_allocations_remaining = true
is_current_or_higher three_quarters limited_allocations_remaining = true
is_current_or_higher _ _ = false

abbrev pub is_periodic_informational : NotificationType → Bool
is_periodic_informational periodic_informational = true
is_periodic_informational _ = false

-- `auto_apply_licenses_turned_on_at`, over the plan's history
abbrev pub turned_on : Option ℕ → List (Option Bool × ℕ) → Option ℕ
turned_on result [] = result
turned_on result ((some true, date) ∷ rest) = turned_on (some date) rest
turned_on result ((some false, date) ∷ rest) = result
turned_on result ((none, date) ∷ rest) = result

unfoldable pub auto_apply_licenses_turned_on_at : Plan → List (Option Bool × ℕ) → Option ℕ
auto_apply_licenses_turned_on_at p history = if auto_applies p then turned_on none history else none

-- What an admin is known by
pub record AdminUser : Type 0 where
  pub lms_user_id : ℕ
  pub ecu_id : ℕ

-- The API of enterprise customers, the Braze service, which may raise, and the history of plans.
pub record AdminServices : Type 0 where
  pub get_enterprise_admin_users : ℕ → Result (List AdminUser)
  pub send_campaign_message : NotificationType → List AdminUser → Option Error
  pub history : ℕ → List (Option Bool × ℕ)

abbrev pub answer : {A : Type 0} → Result A → Action A
answer r w = (r, w)

abbrev pub notification_to : ℕ → ℕ → NotificationType → ℕ → AdminUser → Notification
notification_to enterprise plan type now user = record {
  enterprise_customer_uuid = enterprise;
  enterprise_customer_user_uuid = user.ecu_id;
  subscripton_plan = plan;
  notification_type = type;
  last_sent = now;
}

-- `_send_license_utilization_email`. It counts the automatically applied licenses since they were
-- turned on, by a filter that refuses a null.
unfoldable pub send_license_utilization_email :
    AdminServices → NotificationType → Plan → List AdminUser → Action Unit
unfolding auto_apply_licenses_turned_on_at
send_license_utilization_email services type p [] = pure tt
send_license_utilization_email services type p (u ∷ users) = do
  raise_if (not (is_some (auto_apply_licenses_turned_on_at p (services.history p.uuid))))
      value_error
  call (services.send_campaign_message type (u ∷ users))
  delay (utilization_message type p.uuid (map (λ (user : AdminUser). user.lms_user_id) (u ∷ users)))

-- The transaction of both tasks
unfoldable pub notify : AdminServices → NotificationType → Plan → Agreement → Action Unit
unfolding send_license_utilization_email
notify services type p a = do
  admin_users ← answer (services.get_enterprise_admin_users a.enterprise_customer_uuid)
  now ← gets (λ w. w.now)
  let created = map (notification_to a.enterprise_customer_uuid p.uuid type now) admin_users
  atomic (
      modify_db (λ db. record db { notifications = db.notifications ++ created })
      >> send_license_utilization_email services type p admin_users)

-- `has_email_been_sent_before` of the two tasks
abbrev pub is_about : ℕ → ℕ → Threshold → Notification → Bool
is_about enterprise plan t n =
    n.enterprise_customer_uuid == enterprise
    && n.subscripton_plan == plan
    && is_current_or_higher t n.notification_type

abbrev pub is_initial : ℕ → Notification → Bool
is_initial plan n = n.subscripton_plan == plan && is_periodic_informational n.notification_type

unfoldable pub send_utilization_threshold_reached_email_task : AdminServices → ℕ → Action Unit
unfolding get_plan get_agreement notify
send_utilization_threshold_reached_email_task services plan = do
  p ← get_plan plan
  licenses ← gets (λ w. w.licenses)
  elim (highest_utilization_threshold_reached p.uuid licenses) [
    | none ↦ pure tt
    | some t ↦ do
      a ← get_agreement p.customer_agreement
      sent ← gets (λ w. exists (is_about a.enterprise_customer_uuid p.uuid t) w.notifications)
      if sent then pure tt else notify services (notification_type_of t) p a
  ]

-- DAYS_BEFORE_INITIAL_UTILIZATION_EMAIL_SENT
abbrev pub days_before_initial_utilization_email_sent : ℕ
days_before_initial_utilization_email_sent = 7

unfoldable pub send_initial_utilization_email_task : AdminServices → ℕ → Action Unit
unfolding get_plan get_agreement notify auto_apply_licenses_turned_on_at
send_initial_utilization_email_task services plan = do
  p ← get_plan plan
  sent ← gets (λ w. exists (is_initial p.uuid) w.notifications)
  if sent then pure tt else do
    since ← or_raise (auto_apply_licenses_turned_on_at p (services.history p.uuid)) type_error
    now ← gets (λ w. w.now)
    if ltb now (since + days_before_initial_utilization_email_sent * day)
        then pure tt
        else do a ← get_agreement p.customer_agreement; notify services periodic_informational p a

-- The command: the plans whose initial email is queued
abbrev pub is_auto_applied_now : ℕ → Plan → Bool
is_auto_applied_now now p = auto_applies p && p.is_active && is_current now p

unfoldable pub delay_each : List Plan → Action Unit
delay_each [] = pure tt
delay_each (p ∷ rest) = delay (initial_utilization_email p.uuid) >> delay_each rest

unfoldable pub send_license_utilization_emails : Action Unit
unfolding delay_each is_current
send_license_utilization_emails = do
  subscriptions ← gets (λ w. select (is_auto_applied_now w.now) w.plans)
  delay_each subscriptions
