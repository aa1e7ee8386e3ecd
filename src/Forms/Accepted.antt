-- ===== src/Forms/Accepted.antt =====
-- Which forms are accepted.
use Prim.Native.String.{String}
use text.Mathlib.Text.{starts_with}
use license_manager.Base.{
  ℕ, ◌≡◌, ◌↔◌, ◌≤◌, refl, Bool, true, false, not, ◌&&◌, ◌||◌, Option, none, some, arith, is_some,
  leb, Option-cases, inl, inr,
}
use license_manager.Models.{Plan}
use license_manager.Forms.{
  FormResult, valid, invalid, type_error, Product, PlanForm, RenewalForm, CatalogAnswer,
  max_num_licenses, lacks_catalog, verify_sf_opportunity_product_line_item, validate_catalog,
  salesforce_check, external_check, plan_form_is_valid, renewal_form_is_valid,
}

abbrev pub is_accepted : {E : Type 0} → FormResult E → Bool
is_accepted valid = true
is_accepted (invalid e) = false
is_accepted type_error = false

-- A Salesforce id that starts with 00k
abbrev pub has_00k : Option String → Bool
has_00k none = false
has_00k (some s) = starts_with s "00k"

-- The form's catalog, if it has one, belongs to the form's customer.
abbrev pub catalog_fits : (ℕ → CatalogAnswer) → PlanForm → Bool
catalog_fits client f = elim f.enterprise_catalog_uuid [
  | none ↦ true
  | some c ↦ validate_catalog client f.enterprise_customer_uuid c
]

abbrev pub is_acceptable : (ℕ → CatalogAnswer) → Bool → PlanForm → Bool
is_acceptable client validate_external f =
    f.base_is_valid
    && not (lacks_catalog f)
    && (f.for_internal_use_only || leb f.num_licenses max_num_licenses)
    && (not f.is_revocation_cap_enabled || leb f.revoke_max_percentage 100)
    && is_some f.product
    && has_00k f.salesforce_opportunity_line_item
    && (not validate_external || catalog_fits client f)

is_accepted-salesforce_check :
    (p : Product) (line_item : Option String)
    → is_accepted (salesforce_check p line_item) ≡ has_00k line_item
unfolding salesforce_check verify_sf_opportunity_product_line_item
is_accepted-salesforce_check p none = ground arith
is_accepted-salesforce_check p (some s) = ground arith

is_accepted-external_check :
    (client : ℕ → CatalogAnswer) (validate_external : Bool) (f : PlanForm)
    → is_accepted (external_check client validate_external f)
      ≡ (not validate_external || catalog_fits client f)
unfolding external_check
is_accepted-external_check client validate_external f = ground arith

is_accepted_both :
    {E : Type 0} (r s : FormResult E)
    → is_accepted (elim r as (λ x. FormResult E) [
      | valid ↦ s
      | invalid e ↦ invalid e
      | type_error ↦ type_error
    ])
      ≡ (is_accepted r && is_accepted s)
is_accepted_both valid s = refl
is_accepted_both (invalid e) s = refl
is_accepted_both type_error s = refl

-- The plan form is accepted just when Django accepts it, a changed agreement comes with a catalog, a
-- plan of more than a million licenses is for internal use, an enabled cap is at most 100 percent, a
-- product is given, the line item is given and starts with 00k - whether or not the product requires
-- one - and, where external fields are validated, the catalog belongs to the customer.
pub is_accepted-plan_form_is_valid :
    (client : ℕ → CatalogAnswer) (validate_external : Bool) (f : PlanForm)
    → is_accepted (plan_form_is_valid client validate_external f)
      ≡ is_acceptable client validate_external f
unfolding plan_form_is_valid
is_accepted-plan_form_is_valid client validate_external f = elim (Option-cases f.product) [
  | inl e ↦ ground arith
  | inr (p, e) ↦ ground (
    arith,
    is_accepted-salesforce_check p f.salesforce_opportunity_line_item,
    is_accepted-external_check client validate_external f,
    is_accepted_both (salesforce_check p f.salesforce_opportunity_line_item)
        (external_check client validate_external f),
  )
]

-- The renewal form of a plan is accepted just when Django accepts it, it does not take effect in
-- the past or before the plan expires, does not expire before it takes effect, and its Salesforce
-- id is given and starts with 00k.
pub renewal_form_accepted_iff :
    (now : ℕ) (p : Plan) (f : RenewalForm)
    → (renewal_form_is_valid now p f ≡ valid) ↔ (
        (f.base_is_valid ≡ true)
        × (now ≤ f.effective_date)
        × (p.expiration_date ≤ f.effective_date)
        × (f.effective_date ≤ f.renewed_expiration_date)
        × (has_00k f.salesforce_opportunity_id ≡ true))
unfolding renewal_form_is_valid verify_sf_opportunity_product_line_item
renewal_form_accepted_iff now p f = elim (Option-cases f.salesforce_opportunity_id) [
  | inl e ↦ ground arith
  | inr (s, e) ↦ ground arith
]
