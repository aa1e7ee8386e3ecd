-- ===== src/RenewalAdmin/Requests.antt =====
-- The requests of the endpoint on renewals, and what its serializers (api/serializers.py) accept.
use Prim.Native.String.{String, len}
use license_manager.Base.{
  ℕ, Bool, true, false, not, ◌&&◌, ◌||◌, Option, none, some, List, is_some, same, ltb, leb, ◌==◌,
}
use license_manager.Base.Table.{find}
use license_manager.Models.{Plan, Renewal, LicenseTypes, plan_keyed}

-- The request of a creation. The field of the renewed plan may be left out, or null.
pub record CreateRequest : Type 0 where
  pub prior_subscription_plan : ℕ
  pub renewed_subscription_plan : Option (Option ℕ)
  pub salesforce_opportunity_id : Option String
  pub number_of_licenses : ℕ
  pub effective_date : ℕ
  pub renewed_expiration_date : ℕ
  pub renewed_plan_title : Option String
  pub license_types_to_copy : LicenseTypes
  pub disable_auto_apply_licenses : Bool
  pub exempt_from_batch_processing : Bool

-- `validated_data.get('renewed_subscription_plan')`
abbrev pub renewed_plan_of : CreateRequest → Option ℕ
renewed_plan_of request = elim request.renewed_subscription_plan [ none ↦ none | some plan ↦ plan ]

-- SALESFORCE_ID_LENGTH is the least and the greatest length.
abbrev pub is_salesforce_id : Option String → Bool
is_salesforce_id none = true
is_salesforce_id (some s) = len s == 18 || len s == 0

-- `PrimaryKeyRelatedField`, where null is allowed
abbrev is_known : List Plan → Option ℕ → Bool
is_known plans none = true
is_known plans (some u) = is_some (find u plans)

abbrev pub agreement_of : List Plan → ℕ → Option ℕ
agreement_of plans u = elim (find u plans) [ none ↦ none | some p ↦ some p.customer_agreement ]

-- The fields, then `validate`, of the serializer of a creation
unfoldable pub validate_create : CreateRequest → List Plan → Bool
validate_create request plans = elim (find request.prior_subscription_plan plans) [
  | none ↦ false
  | some prior_plan ↦
      is_known plans (renewed_plan_of request)
      && is_salesforce_id request.salesforce_opportunity_id
      && ltb 0 request.number_of_licenses
      && elim (renewed_plan_of request) [
        | none ↦ true
        | some u ↦ same (some prior_plan.customer_agreement) (agreement_of plans u)
      ]
      && leb prior_plan.start_date request.effective_date
      && ltb request.effective_date request.renewed_expiration_date
]

-- The request of an update, where every field may be left out
pub record UpdateRequest : Type 0 where
  pub has_unknown_fields : Bool
  pub renewed_subscription_plan : Option (Option ℕ)
  pub salesforce_opportunity_id : Option String
  pub number_of_licenses : Option ℕ
  pub effective_date : Option ℕ
  pub renewed_expiration_date : Option ℕ
  pub renewed_plan_title : Option (Option String)
  pub license_types_to_copy : Option LicenseTypes
  pub disable_auto_apply_licenses : Option Bool
  pub exempt_from_batch_processing : Option Bool

-- `attrs.get(field, instance.field)`
abbrev pub given : {A : Type 0} → Option A → A → A
given none old = old
given (some new) old = new

-- The fields, then `validate`, of the serializer of an update
unfoldable pub validate_update : UpdateRequest → List Plan → Renewal → Plan → Bool
validate_update request plans r prior_plan =
    let effective_date = given request.effective_date r.effective_date in
    is_known plans (given request.renewed_subscription_plan none)
    && is_salesforce_id request.salesforce_opportunity_id
    && ltb 0 (given request.number_of_licenses 1)
    && not request.has_unknown_fields
    && elim (given request.renewed_subscription_plan none) [
      | none ↦ true
      | some u ↦ same (some prior_plan.customer_agreement) (agreement_of plans u)
    ]
    && leb prior_plan.start_date effective_date
    && ltb effective_date (given request.renewed_expiration_date r.renewed_expiration_date)

abbrev pub updated : UpdateRequest → Renewal → Renewal
updated request r = record r {
  renewed_subscription_plan = given request.renewed_subscription_plan r.renewed_subscription_plan;
  salesforce_opportunity_id = elim request.salesforce_opportunity_id [
    | none ↦ r.salesforce_opportunity_id
    | some s ↦ some s
  ];
  number_of_licenses = given request.number_of_licenses r.number_of_licenses;
  effective_date = given request.effective_date r.effective_date;
  renewed_expiration_date = given request.renewed_expiration_date r.renewed_expiration_date;
  renewed_plan_title = given request.renewed_plan_title r.renewed_plan_title;
  license_types_to_copy = given request.license_types_to_copy r.license_types_to_copy;
  disable_auto_apply_licenses =
      given request.disable_auto_apply_licenses r.disable_auto_apply_licenses;
  exempt_from_batch_processing =
      given request.exempt_from_batch_processing r.exempt_from_batch_processing;
}
