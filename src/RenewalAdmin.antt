-- ===== src/RenewalAdmin.antt =====
-- The endpoint of provisioning admins on renewals:
-- `SubscriptionPlanRenewalProvisioningAdminViewset` (api/v1/views.py) and its request serializers
-- (api/serializers.py). What rest_framework checks of a single field is not modelled beyond the
-- plans that a request names, the number of licenses and the length of the opportunity's id; a
-- field that a creation leaves out has its default. A Salesforce opportunity here is text, an id of
-- a renewal a number. The unique columns of renewals are in Renewal.
mod Requests
pub mod Create
pub mod Once
mod Tests
unfoldable pub use Requests.*
use Prim.Native.String.{String}
use license_manager.Base.{
  ℕ, ◌+◌, Bool, false, not, ◌&&◌, ◌||◌, Option, none, some, exists, first, order_by, select,
  is_some, same, ◌==◌, if◌then◌else◌,
}
use license_manager.Base.Table.{find, upsert}
use license_manager.Base.Pages.{by_key}
use license_manager.Models.{Renewal, plan_keyed, renewal_keyed, ActorType, ActionSource}
use license_manager.Store.{
  Action, ok, err, pure, raise, gets, raise_if, modify_db, take_uuids, get_plan, database_error,
  key_error, renewal_processing_error, does_not_exist, ◌>>=◌, ◌>>◌,
}
use license_manager.Renewal.{renew_subscription, save_renewal}

-- What the view is told by `set_created`
pub data Created : Type 0 where
  created found conflicted : Created

abbrev pub is_exact_match : CreateRequest → Renewal → Bool
is_exact_match request r =
    r.prior_subscription_plan == request.prior_subscription_plan
    && same r.renewed_subscription_plan (renewed_plan_of request)

abbrev pub is_partial_match : CreateRequest → Renewal → Bool
is_partial_match request r =
    (r.prior_subscription_plan == request.prior_subscription_plan
      || (is_some (renewed_plan_of request)
          && same r.renewed_subscription_plan (renewed_plan_of request)))
    && not (is_exact_match request r)

abbrev pub new_renewal : CreateRequest → ℕ → Renewal
new_renewal request id = record {
  id = id;
  prior_subscription_plan = request.prior_subscription_plan;
  renewed_subscription_plan = renewed_plan_of request;
  salesforce_opportunity_id = request.salesforce_opportunity_id;
  number_of_licenses = request.number_of_licenses;
  effective_date = request.effective_date;
  renewed_expiration_date = request.renewed_expiration_date;
  processed = false;
  processed_datetime = none;
  renewed_plan_title = request.renewed_plan_title;
  license_types_to_copy = request.license_types_to_copy;
  disable_auto_apply_licenses = request.disable_auto_apply_licenses;
  exempt_from_batch_processing = request.exempt_from_batch_processing;
}

-- `create` of the serializer: `first` without an order is by the primary key.
unfoldable pub create_renewal : CreateRequest → Action (Created × Renewal)
unfolding save_renewal
create_renewal request = do
  rows ← gets (λ w. order_by by_key w.renewals)
  elim (first (is_exact_match request) rows) [
    | some exact_match ↦ pure (found, exact_match)
    | none ↦ elim (first (is_partial_match request) rows) [
      | some partial_match ↦ pure (conflicted, partial_match)
      | none ↦ do
        id ← take_uuids 1
        save_renewal (new_renewal request id)
        pure (created, new_renewal request id)
    ]
  ]

-- The status and the renewal of a response
pub record Response : Type 0 where
  pub status : ℕ
  pub renewal : Option Renewal

-- `create` of the view. Its log line on a conflict reads the field of the renewed plan from the
-- request.
unfoldable pub create : CreateRequest → Action Response
unfolding validate_create create_renewal
create request = do
  plans ← gets (λ w. w.plans)
  if not (validate_create request plans) then pure (record { status = 400; renewal = none }) else do
    answer ← create_renewal request
    elim answer.0 [
      | created ↦ pure (record { status = 201; renewal = some answer.1 })
      | found ↦ pure (record { status = 200; renewal = some answer.1 })
      | conflicted ↦
          raise_if (not (is_some request.renewed_subscription_plan)) key_error
          >> pure (record { status = 422; renewal = some answer.1 })
    ]

-- `update` and `partial_update` of the view
unfoldable pub update : (id : ℕ) → UpdateRequest → Action Response
unfolding validate_update save_renewal get_plan
update id request = do
  row ← gets (λ w. find id w.renewals)
  elim row [
    | none ↦ pure (record { status = 404; renewal = none })
    | some r ↦ do
      plans ← gets (λ w. w.plans)
      prior_plan ← get_plan r.prior_subscription_plan
      if not (validate_update request plans r prior_plan)
          then pure (record { status = 400; renewal = none })
          else (save_renewal (updated request r)
              >> pure (record { status = 200; renewal = some (updated request r) }))
  ]

unfoldable pub destroy : (id : ℕ) → Action Response
destroy id = do
  row ← gets (λ w. find id w.renewals)
  elim row [
    | none ↦ pure (record { status = 404; renewal = none })
    | some r ↦ do
      modify_db (λ db. record db { renewals = select (λ r. not (r.id == id)) db.renewals })
      pure (record { status = 204; renewal = none })
  ]

-- `except RenewalProcessingError: ... except ObjectDoesNotExist: ...`
abbrev pub answer_errors : Action Response → Action Response
answer_errors m w =
    let (r, w') = m w in
    elim r [
      | ok response ↦ (ok response, w')
      | err renewal_processing_error ↦ (ok (record { status = 500; renewal = none }), w')
      | err does_not_exist ↦ (ok (record { status = 404; renewal = none }), w')
      | err e ↦ (err e, w')
    ]

-- `process` of the view, for a renewal whose plans are read with it
unfoldable pub process_renewal : (year : ℕ → String) (user id : ℕ) → Action Response
unfolding get_plan
process_renewal year user id = answer_errors do
  row ← gets (λ w. find id w.renewals)
  elim row [
    | none ↦ raise does_not_exist
    | some r ↦ if r.processed then pure (record { status = 200; renewal = some r }) else do
      original ← get_plan r.prior_subscription_plan
      plans ← gets (λ w. w.plans)
      correlation_id ← take_uuids 1
      renew_subscription year r original
          (elim r.renewed_subscription_plan [ none ↦ none | some u ↦ find u plans ])
          (record {
            is_auto_renewed = false;
            actor_type = ActorType.admin;
            actor_lms_user_id = some user;
            source = ActionSource.api;
            correlation_id = some correlation_id;
          })
      row' ← gets (λ w. find id w.renewals)
      pure (record { status = 201; renewal = row' })
  ]
