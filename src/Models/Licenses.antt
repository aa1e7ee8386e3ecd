-- ===== src/Models/Licenses.antt =====
-- `class License`: its fields and the methods that only set fields (models.py, constants.py).
use license_manager.Base.{ℕ, Bool, true, false, ◌||◌, Option, none}
use license_manager.Base.Table.{Keyed}

-- LICENSE_STATUS_CHOICES
pub data Status : Type 0 where
  activated assigned unassigned revoked : Status

abbrev pub is_activated : Status → Bool
is_activated activated = true
is_activated _ = false

abbrev pub is_assigned : Status → Bool
is_assigned assigned = true
is_assigned _ = false

abbrev pub is_unassigned : Status → Bool
is_unassigned unassigned = true
is_unassigned _ = false

abbrev pub is_revoked : Status → Bool
is_revoked revoked = true
is_revoked _ = false

-- REVOCABLE_LICENSE_STATUSES, which is also the test `status in [ASSIGNED, ACTIVATED]`
abbrev pub is_revocable : Status → Bool
is_revocable s = is_activated s || is_assigned s

pub record License : Type 0 where
  pub uuid : ℕ
  pub status : Status
  pub assigned_date : Option ℕ
  pub activation_date : Option ℕ
  pub activation_key : Option ℕ
  pub last_remind_date : Option ℕ
  pub expiration_reminder_sent_date : Option ℕ
  pub subscription_plan_expiration_email_sent_date : Option ℕ
  pub revoked_date : Option ℕ
  pub user_email : Option ℕ
  pub lms_user_id : Option ℕ
  pub subscription_plan : ℕ
  pub renewed_to : Option ℕ
  pub auto_applied : Option Bool

instance abbrev pub license_keyed : Keyed License
license_keyed = record { key = λ l. l.uuid }

-- `License(subscription_plan=plan)`: every other field has its default.
abbrev pub new_license : ℕ → ℕ → License
new_license plan uuid = record {
  uuid = uuid;
  status = unassigned;
  assigned_date = none;
  activation_date = none;
  activation_key = none;
  last_remind_date = none;
  expiration_reminder_sent_date = none;
  subscription_plan_expiration_email_sent_date = none;
  revoked_date = none;
  user_email = none;
  lms_user_id = none;
  subscription_plan = plan;
  renewed_to = none;
  auto_applied = none;
}

unfoldable pub clear_pii : License → License
clear_pii l = record l { user_email = none }

unfoldable pub reset_to_unassigned : License → License
reset_to_unassigned l = record l {
  status = unassigned;
  user_email = none;
  lms_user_id = none;
  last_remind_date = none;
  activation_date = none;
  activation_key = none;
  assigned_date = none;
  revoked_date = none;
}
