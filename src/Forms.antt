-- ===== src/Forms.antt =====
-- The validation of the admin site's forms (subscriptions/forms.py). What Django checks first is a
-- field of the submitted form; the clients of the enterprise services are parameters, which answer
-- about a uuid.
pub mod Accepted
mod Tests
use Prim.Native.String.{String}
use text.Mathlib.Text.{starts_with}
use license_manager.Base.{
  ℕ, Bool, true, false, not, ◌&&◌, ◌||◌, Option, none, some, is_some, ltb, ◌==◌, if◌then◌else◌,
}
use license_manager.Models.{Plan, Agreement}

-- What `is_valid` does: true, false with the field that the error is added to, or an exception
pub data FormResult (E : Type 0) : Type 0 where
  valid : FormResult E
  invalid : E → FormResult E
  type_error : FormResult E

pub data FormError : Type 0 where
  base_validation enterprise_catalog_uuid num_licenses revoke_max_percentage : FormError
  product_missing salesforce_id effective_date renewed_expiration_date netsuite_id : FormError
  enterprise_customer_uuid default_enterprise_catalog_uuid : FormError

-- MAX_NUM_LICENSES
abbrev pub max_num_licenses : ℕ
max_num_licenses = 1000000

-- `class Product` with its `PlanType`
pub record Product : Type 0 where
  pub netsuite_id : Option ℕ
  pub sf_id_required : Bool
  pub ns_id_required : Bool

-- `re.search(r'^00k', ...)`, which raises on None
unfoldable pub verify_sf_opportunity_product_line_item : Option String → FormResult Unit
verify_sf_opportunity_product_line_item none = type_error
verify_sf_opportunity_product_line_item (some s) = if starts_with s "00k" then valid else invalid tt

-- `get_enterprise_catalog`: the customer of the catalog, or an HTTP error
pub data CatalogAnswer : Type 0 where
  catalog_of : (enterprise_customer : ℕ) → CatalogAnswer
  http_error : CatalogAnswer

-- `_validate_enterprise_catalog_uuid` and `_validate_default_enterprise_catalog_uuid` past the null
-- test
unfoldable pub validate_catalog : (ℕ → CatalogAnswer) → (customer catalog : ℕ) → Bool
validate_catalog client customer catalog = elim (client catalog) [
  | catalog_of c ↦ c == customer
  | http_error ↦ false
]

-- `SubscriptionPlanForm` with its cleaned data; the instance has them too where it is the plan's field.
pub record PlanForm : Type 0 where
  pub base_is_valid : Bool
  pub customer_agreement_changed : Bool
  pub default_enterprise_catalog_uuid : Option ℕ
  pub enterprise_catalog_uuid : Option ℕ
  pub num_licenses : ℕ
  pub for_internal_use_only : Bool
  pub is_revocation_cap_enabled : Bool
  pub revoke_max_percentage : ℕ
  pub product : Option Product
  pub salesforce_opportunity_line_item : Option String
  pub enterprise_customer_uuid : ℕ

-- `not A and not B` of the catalog of the agreement and of the form, when the agreement changed
abbrev pub lacks_catalog : PlanForm → Bool
lacks_catalog f =
    f.customer_agreement_changed
    && not (is_some f.default_enterprise_catalog_uuid)
    && not (is_some f.enterprise_catalog_uuid)

-- `A and B is None or not verify(B)`
unfoldable pub salesforce_check : Product → Option String → FormResult FormError
unfolding verify_sf_opportunity_product_line_item
salesforce_check p line_item =
    if p.sf_id_required && not (is_some line_item)
    then invalid salesforce_id
    else elim (verify_sf_opportunity_product_line_item line_item) [
      | valid ↦ valid
      | invalid e ↦ invalid salesforce_id
      | type_error ↦ type_error
    ]

-- `settings.VALIDATE_FORM_EXTERNAL_FIELDS and catalog and not validate(catalog)`
unfoldable pub external_check :
    (client : ℕ → CatalogAnswer) (validate_external : Bool) → PlanForm → FormResult FormError
unfolding validate_catalog
external_check client validate_external f =
    if not validate_external then valid else elim f.enterprise_catalog_uuid [
      | none ↦ valid
      | some c ↦
          if validate_catalog client f.enterprise_customer_uuid c
          then valid
          else invalid FormError.enterprise_catalog_uuid
    ]

-- `SubscriptionPlanForm.is_valid`
unfoldable pub plan_form_is_valid :
    (client : ℕ → CatalogAnswer) (validate_external : Bool) → PlanForm → FormResult FormError
unfolding salesforce_check external_check
plan_form_is_valid client validate_external f =
    if not f.base_is_valid
    then invalid base_validation
    else if lacks_catalog f
    then invalid FormError.enterprise_catalog_uuid
    else if ltb max_num_licenses f.num_licenses && not f.for_internal_use_only
    then invalid FormError.num_licenses
    else if f.is_revocation_cap_enabled && ltb 100 f.revoke_max_percentage
    then invalid FormError.revoke_max_percentage
    else elim f.product [
      | none ↦ invalid product_missing
      | some p ↦ elim (salesforce_check p f.salesforce_opportunity_line_item) [
        | valid ↦ external_check client validate_external f
        | invalid e ↦ invalid e
        | type_error ↦ type_error
      ]
    ]

pub record RenewalForm : Type 0 where
  pub base_is_valid : Bool
  pub effective_date : ℕ
  pub renewed_expiration_date : ℕ
  pub salesforce_opportunity_id : Option String

-- `SubscriptionPlanRenewalForm.is_valid`, for the renewal of a plan
unfoldable pub renewal_form_is_valid : (now : ℕ) → Plan → RenewalForm → FormResult FormError
unfolding verify_sf_opportunity_product_line_item
renewal_form_is_valid now subscription f =
    if not f.base_is_valid
    then invalid base_validation
    else if ltb f.effective_date now
    then invalid FormError.effective_date
    else if ltb f.renewed_expiration_date f.effective_date
    then invalid FormError.renewed_expiration_date
    else if ltb f.effective_date subscription.expiration_date
    then invalid FormError.effective_date
    else if not (is_some f.salesforce_opportunity_id)
    then invalid salesforce_id
    else elim (verify_sf_opportunity_product_line_item f.salesforce_opportunity_id) [
      | valid ↦ valid
      | invalid e ↦ invalid salesforce_id
      | type_error ↦ type_error
    ]

-- `get_enterprise_customer_data`: the slug and name of a customer, or an HTTP error
pub data CustomerAnswer : Type 0 where
  customer_data : (slug name : Option String) → CustomerAnswer
  customer_error : CustomerAnswer

-- `_validate_enterprise_customer_uuid`, which also writes the slug and the name of the instance
unfoldable pub validate_enterprise_customer_uuid :
    (ℕ → CustomerAnswer) → Agreement → Bool × Agreement
validate_enterprise_customer_uuid client a = elim (client a.enterprise_customer_uuid) [
  | customer_data slug name ↦
      (true, record a { enterprise_customer_slug = slug; enterprise_customer_name = name })
  | customer_error ↦ (false, a)
]

unfoldable pub validate_default_enterprise_catalog_uuid : (ℕ → CatalogAnswer) → Agreement → Bool
unfolding validate_catalog
validate_default_enterprise_catalog_uuid client a = elim a.default_enterprise_catalog_uuid [
  | none ↦ true
  | some c ↦ validate_catalog client a.enterprise_customer_uuid c
]

-- `CustomerAgreementAdminForm.is_valid`: both checks run before either answer is looked at.
unfoldable pub agreement_form_is_valid :
    (customers : ℕ → CustomerAnswer) (catalogs : ℕ → CatalogAnswer)
    (validate_external base_is_valid : Bool)
    → Agreement
    → FormResult FormError × Agreement
unfolding validate_enterprise_customer_uuid validate_default_enterprise_catalog_uuid
agreement_form_is_valid customers catalogs validate_external base_is_valid a =
    if not base_is_valid
    then (invalid base_validation, a)
    else if not validate_external
    then (valid, a)
    else (let (customer_ok, a') = validate_enterprise_customer_uuid customers a in
        let catalog_ok = validate_default_enterprise_catalog_uuid catalogs a' in
        (
          if not customer_ok
              then invalid FormError.enterprise_customer_uuid
              else if not catalog_ok
              then invalid FormError.default_enterprise_catalog_uuid
              else valid,
          a',
        ))

-- Zero is false, as null is.
abbrev pub lacks_id : Option ℕ → Bool
lacks_id none = true
lacks_id (some n) = n == 0

-- `ProductForm.is_valid`
unfoldable pub product_form_is_valid : (base_is_valid : Bool) → Product → FormResult FormError
product_form_is_valid base_is_valid p =
    if not base_is_valid
    then invalid base_validation
    else if p.ns_id_required && lacks_id p.netsuite_id
    then invalid netsuite_id
    else valid
