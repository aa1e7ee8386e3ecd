-- ===== src/Samples.antt =====
-- Concrete rows and a small database, on which the tests of every component run.
use license_manager.Base.{true, false, none, some, [], ◌∷◌}
use license_manager.Models.{License, Plan, Agreement, activated, assigned, new_license}
use license_manager.Store.{World}

-- A plan that runs from 1000 to 9000, with no cap.
abbrev pub open_plan : Plan
open_plan = record {
  uuid = 1;
  title = "open";
  start_date = 1000;
  expiration_date = 9000;
  expiration_processed = false;
  enterprise_catalog_uuid = 70;
  customer_agreement = 5;
  is_active = true;
  is_revocation_cap_enabled = false;
  revoke_max_percentage = 5;
  num_revocations_applied = 0;
  salesforce_opportunity_id = none;
  salesforce_opportunity_line_item = none;
  product = none;
  for_internal_use_only = false;
  can_freeze_unused_licenses = true;
  last_freeze_timestamp = none;
  should_auto_apply_licenses = some true;
  desired_num_licenses = none;
  created = 900;
}

-- Another plan of the same customer, where a quarter of the licenses can be revoked.
abbrev pub capped_plan : Plan
capped_plan = record open_plan {
  uuid = 2;
  title = "capped";
  is_revocation_cap_enabled = true;
  revoke_max_percentage = 25;
  should_auto_apply_licenses = none;
}

abbrev pub agreement : Agreement
agreement = record {
  uuid = 5;
  enterprise_customer_uuid = 500;
  enterprise_customer_slug = some "acme";
  enterprise_customer_name = some "Acme";
  default_enterprise_catalog_uuid = some 70;
  disable_expiration_notifications = false;
  disable_onboarding_notifications = false;
  license_duration_before_purge = 100;
  has_custom_license_expiration_messaging = false;
  modal_header_text = none;
  expired_subscription_modal_messaging = none;
  button_label_in_modal = none;
  url_for_button_in_modal = none;
  enable_auto_applied_subscriptions_with_universal_link = false;
  enable_auto_scaling_of_current_plan = true;
  auto_scaling_max_licenses = some 5;
  auto_scaling_threshold_percentage = some 50;
  auto_scaling_increment_percentage = some 50;
}

abbrev pub active_license : License
active_license = record (new_license 1 10) {
  status = activated;
  user_email = some 31;
  lms_user_id = some 41;
  activation_key = some 51;
  assigned_date = some 1500;
  activation_date = some 1600;
}

abbrev pub pending_license : License
pending_license = record (new_license 1 11) {
  status = assigned;
  user_email = some 32;
  activation_key = some 52;
  assigned_date = some 1700;
}

abbrev pub free_license : License
free_license = new_license 1 12

abbrev pub capped_license : License
capped_license = record active_license { uuid = 20; subscription_plan = 2; user_email = some 33 }

abbrev pub world : World
world = record {
  db = record {
    licenses =
        active_license ∷ pending_license ∷ free_license ∷ capped_license ∷ new_license 2 21 ∷ [];
    plans = open_plan ∷ capped_plan ∷ [];
    agreements = agreement ∷ [];
    renewals = [];
    actions = [];
    sources = [];
    license_events = [];
    notifications = [];
  };
  events = [];
  tasks = [];
  locks = [];
  next_uuid = 100;
  now = 2000;
}
