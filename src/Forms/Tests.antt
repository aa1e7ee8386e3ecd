-- ===== src/Forms/Tests.antt =====
-- The theorems on forms at concrete inputs.
use license_manager.Base.{◌≡◌, ◌↔◌, ◌≤◌, true, false, none, some}
use license_manager.Samples.{open_plan}
use license_manager.Forms.{
  PlanForm, RenewalForm, Product, catalog_of, plan_form_is_valid, renewal_form_is_valid, valid,
}
use license_manager.Forms.Accepted.{
  is_accepted, is_acceptable, has_00k, is_accepted-plan_form_is_valid, renewal_form_accepted_iff,
}

abbrev product : Product
product = record { netsuite_id = none; sf_id_required = false; ns_id_required = false }

abbrev plan_form : PlanForm
plan_form = record {
  base_is_valid = true;
  customer_agreement_changed = true;
  default_enterprise_catalog_uuid = none;
  enterprise_catalog_uuid = some 70;
  num_licenses = 2000000;
  for_internal_use_only = true;
  is_revocation_cap_enabled = true;
  revoke_max_percentage = 100;
  product = some product;
  salesforce_opportunity_line_item = some "00k123456789012345";
  enterprise_customer_uuid = 500;
}

is_accepted-plan_form_is_valid_example :
    is_accepted (plan_form_is_valid (λ c. catalog_of 500) true plan_form)
    ≡ is_acceptable (λ c. catalog_of 500) true plan_form
is_accepted-plan_form_is_valid_example =
    is_accepted-plan_form_is_valid (λ c. catalog_of 500) true plan_form

abbrev renewal_form : RenewalForm
renewal_form = record {
  base_is_valid = true;
  effective_date = 9000;
  renewed_expiration_date = 12000;
  salesforce_opportunity_id = some "00k123456789012345";
}

renewal_form_accepted_iff_example : (renewal_form_is_valid 2000 open_plan renewal_form ≡ valid) ↔ (
    (renewal_form.base_is_valid ≡ true)
    × (2000 ≤ renewal_form.effective_date)
    × (open_plan.expiration_date ≤ renewal_form.effective_date)
    × (renewal_form.effective_date ≤ renewal_form.renewed_expiration_date)
    × (has_00k renewal_form.salesforce_opportunity_id ≡ true))
renewal_form_accepted_iff_example = renewal_form_accepted_iff 2000 open_plan renewal_form
