-- ===== src/Models/Audit.antt =====
-- `class LicenseAction`, `class SubscriptionLicenseSource`, and the names of the tracking events
-- (models.py, constants.py).
use license_manager.Base.{ℕ, Bool, Option}
use license_manager.Models.Licenses.{Status}

-- LicenseActionType, as far as the modelled code writes it
pub data ActionType : Type 0 where
  assigned_action revoked_action renewed_action : ActionType

-- LicenseActorType
pub data ActorType : Type 0 where
  admin learner system : ActorType

-- LicenseActionSource
pub data ActionSource : Type 0 where
  admin_ui admin_api admin_api_bulk api celery_task renewal_job : ActionSource

-- The `metadata` of an audit row, by the code that writes it. The idempotency key
-- `correlation:license:revoked` is given by its correlation id, since it stands beside the license.
pub data Metadata : Type 0 where
  of_assignment : (batch_size requested_email_count : ℕ) (external_key : Option ℕ) → Metadata
  of_revocation : (original_status : Status) (idempotency_key : Option ℕ) → Metadata
  of_renewal :
      (renewal_id prior_plan renewed_plan original_license : ℕ) (original_status : Status)
      (is_auto_renewed : Bool)
      → Metadata

pub record LicenseAction : Type 0 where
  pub license : ℕ
  pub subscription_plan : ℕ
  pub enterprise_customer_uuid : ℕ
  pub action_type : ActionType
  pub actor_type : ActorType
  pub actor_lms_user_id : Option ℕ
  pub learner_lms_user_id : Option ℕ
  pub learner_email : Option ℕ
  pub learner_external_key : Option ℕ
  pub source : ActionSource
  pub correlation_id : Option ℕ
  pub metadata : Metadata

pub record LicenseSource : Type 0 where
  pub license : ℕ
  pub source_id : ℕ

-- The names of `LicenseEvent` rows: EXPIRED_LICENSE_UNLINKED
pub data LicenseEventName : Type 0 where
  expired_license_unlinked : LicenseEventName

-- `class LicenseEvent`
pub record LicenseEvent : Type 0 where
  pub license : ℕ
  pub event_name : LicenseEventName

-- SegmentEvents
pub data EventName : Type 0 where
  license_activated license_assigned license_created license_deleted license_expired : EventName
  license_renewed license_revoked license_not_assigned : EventName

-- NotificationChoices
pub data NotificationType : Type 0 where
  limited_allocations_remaining no_allocations_remaining periodic_informational : NotificationType

-- `class Notification`
pub record Notification : Type 0 where
  pub enterprise_customer_uuid : ℕ
  pub enterprise_customer_user_uuid : ℕ
  pub subscripton_plan : ℕ
  pub notification_type : NotificationType
  pub last_sent : ℕ
