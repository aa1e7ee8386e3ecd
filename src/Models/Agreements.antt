-- ===== src/Models/Agreements.antt =====
-- `class CustomerAgreement`: its fields (models.py).
use Prim.Native.String.{String}
use license_manager.Base.{ℕ, Bool, Option}
use license_manager.Base.Table.{Keyed}

pub record Agreement : Type 0 where
  pub uuid : ℕ
  pub enterprise_customer_uuid : ℕ
  pub enterprise_customer_slug : Option String
  pub enterprise_customer_name : Option String
  pub default_enterprise_catalog_uuid : Option ℕ
  pub disable_expiration_notifications : Bool
  pub disable_onboarding_notifications : Bool
  pub license_duration_before_purge : ℕ
  pub has_custom_license_expiration_messaging : Bool
  pub modal_header_text : Option String
  pub expired_subscription_modal_messaging : Option String
  pub button_label_in_modal : Option String
  pub url_for_button_in_modal : Option String
  pub enable_auto_applied_subscriptions_with_universal_link : Bool
  pub enable_auto_scaling_of_current_plan : Bool
  pub auto_scaling_max_licenses : Option ℕ
  pub auto_scaling_threshold_percentage : Option ℕ
  pub auto_scaling_increment_percentage : Option ℕ

instance abbrev pub agreement_keyed : Keyed Agreement
agreement_keyed = record { key = λ a. a.uuid }
