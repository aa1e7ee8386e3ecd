-- ===== src/Utilization/Tests.antt =====
-- The emails on the utilization of the sample plan.
use license_manager.Base.{◌≡◌, refl, true, none, some, [], ◌∷◌, ◌*◌, ◌+◌}
use license_manager.Models.{day, no_allocations_remaining, periodic_informational}
use license_manager.Store.{
  World, ok, err, api_error, value_error, utilization_message, initial_utilization_email,
}
use license_manager.Utilization.{
  all_licenses, three_quarters, highest_utilization_threshold_reached, AdminUser, AdminServices,
  notification_to, send_utilization_threshold_reached_email_task,
  send_initial_utilization_email_task, send_license_utilization_emails,
}
use license_manager.Utilization.Once.{send_utilization_threshold_once}
use license_manager.Samples.{
  world, open_plan, agreement, active_license, pending_license, free_license,
}

abbrev admin : AdminUser
admin = record { lms_user_id = 71; ecu_id = 81 }

abbrev services : AdminServices
services = record {
  get_enterprise_admin_users = λ u. ok (admin ∷ []);
  send_campaign_message = λ type users. none;
  history = λ p. (some true, 1500) ∷ (some true, 1200) ∷ (none, 1000) ∷ [];
}

-- Services that fail, and a plan whose automatic application is nowhere in its history
abbrev failing : AdminServices
failing = record services { send_campaign_message = λ type users. some api_error }

abbrev no_history : AdminServices
no_history = record services { history = λ p. [] }

-- Both licenses of the plan are taken.
abbrev full : World
full = record world { db = record world.db { licenses = active_license ∷ pending_license ∷ [] } }

-- Later, two more licenses are there, of which one is taken, and the notification.
abbrev later : World
later = record world {
  db = record world.db {
    licenses =
        active_license ∷ pending_license ∷ free_license ∷ record active_license { uuid = 14 } ∷ [];
    notifications = notification_to 500 1 no_allocations_remaining 2000 admin ∷ [];
  };
}

send_utilization_threshold_once_example :
    send_utilization_threshold_reached_email_task failing 1 later ≡ (ok tt, later)
unfolding highest_utilization_threshold_reached send_utilization_threshold_reached_email_task
send_utilization_threshold_once_example =
    send_utilization_threshold_once services failing 1 open_plan open_plan agreement agreement
      all_licenses admin [] full later refl refl refl refl refl refl refl refl (λ test h. h) refl

reached : highest_utilization_threshold_reached 1 later.licenses ≡ some three_quarters
unfolding highest_utilization_threshold_reached
reached = refl

messages :
    (send_utilization_threshold_reached_email_task services 1 full).1.tasks
    ≡ utilization_message no_allocations_remaining 1 (71 ∷ []) ∷ []
unfolding highest_utilization_threshold_reached send_utilization_threshold_reached_email_task
messages = refl

-- A failure leaves no notification, so that the task may try again.
rolled_back : (send_utilization_threshold_reached_email_task failing 1 full).1.notifications ≡ []
unfolding highest_utilization_threshold_reached send_utilization_threshold_reached_email_task
rolled_back = refl

null_refused : (send_utilization_threshold_reached_email_task no_history 1 full).0 ≡ err value_error
unfolding highest_utilization_threshold_reached send_utilization_threshold_reached_email_task
null_refused = refl

-- The initial email waits for a week, then it is sent once.
too_early : send_initial_utilization_email_task services 1 full ≡ (ok tt, full)
unfolding send_initial_utilization_email_task
too_early = refl

abbrev week_later : World
week_later = record full { now = 7 * day + 1200 }

initial_messages :
    (send_initial_utilization_email_task services 1 week_later).1.tasks
    ≡ utilization_message periodic_informational 1 (71 ∷ []) ∷ []
unfolding send_initial_utilization_email_task
initial_messages = refl

queued : (send_license_utilization_emails full).1.tasks ≡ initial_utilization_email 1 ∷ []
unfolding send_license_utilization_emails
queued = refl
