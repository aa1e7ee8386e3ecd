-- ===== src/Models/Renewals.antt =====
-- `class SubscriptionPlanRenewal`: its fields (models.py, constants.py).
use Prim.Native.String.{String}
use license_manager.Base.{ℕ, Bool, Option}
use license_manager.Base.Table.{Keyed}

-- LicenseTypesToRenew
pub data LicenseTypes : Type 0 where
  assigned_and_activated activated_only nothing : LicenseTypes

pub record Renewal : Type 0 where
  pub id : ℕ
  pub prior_subscription_plan : ℕ
  pub renewed_subscription_plan : Option ℕ
  pub salesforce_opportunity_id : Option String
  pub number_of_licenses : ℕ
  pub effective_date : ℕ
  pub renewed_expiration_date : ℕ
  pub processed : Bool
  pub processed_datetime : Option ℕ
  pub renewed_plan_title : Option String
  pub license_types_to_copy : LicenseTypes
  pub disable_auto_apply_licenses : Bool
  pub exempt_from_batch_processing : Bool

instance abbrev pub renewal_keyed : Keyed Renewal
renewal_keyed = record { key = λ r. r.id }
