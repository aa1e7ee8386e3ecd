-- ===== src/Renewal.antt =====
-- Renewing a plan: `renew_subscription`, `_renew_all_licenses`, `_original_licenses_to_copy` and
-- `toggle_auto_apply_licenses` of subscriptions/api.py, and the command `process_renewals`. Writing
-- the audit rows does not fail here, the unique columns of plans and renewals may refuse a row.
-- `year` is how `datetime` prints the year of an instant.
pub mod Toggle
pub mod Copies
pub mod Room
pub mod Written
pub mod Into
pub mod Outcome
mod Tests
use Prim.Native.String.{String, len, ◌++◌ as ◌+++◌}
use text.Mathlib.Text.{◌==◌ as ◌===◌}
use license_manager.Base.{
  ℕ, suc, ◌+◌, ◌-◌, ◌*◌, Bool, true, false, not, ◌&&◌, ◌||◌, Option, none, some, List, [], ◌∷◌,
  ◌++◌, exists, select, length, map, is_some, same, ltb, leb, ◌==◌, if◌then◌else◌,
}
use license_manager.Models.{
  License, Plan, Renewal, LicenseAction, LicenseTypes, license_keyed, plan_keyed, renewal_keyed,
  assigned_and_activated, activated_only, nothing, is_activated, is_unassigned, is_revocable,
  in_plan, licenses_of, num_licenses, hour, license_renewed, ActorType, ActionSource, ActionType,
  Metadata,
}
use license_manager.Base.Table.{find, upsert}
use license_manager.Store.{
  Action, World, Result, ok, err, Error, pure, raise, gets, raise_if, when, modify_db, atomic,
  take_uuids, save_plan, get_plan, get_agreement, increase_num_licenses, bulk_update,
  track_license_changes, renewal_processing_error, database_error, ◌>>=◌, ◌>>◌,
}

-- `for plan in ...: plan.should_auto_apply_licenses = False; plan.save()`
unfoldable pub turn_off_each : List Plan → Action Unit
turn_off_each [] = pure tt
turn_off_each (p ∷ rest) =
    save_plan (record p { should_auto_apply_licenses = some false }) >> turn_off_each rest

-- A null flag is false.
abbrev pub auto_applies : Plan → Bool
auto_applies p = elim p.should_auto_apply_licenses [ none ↦ false | some b ↦ b ]

abbrev pub auto_applied_in : ℕ → Plan → Bool
auto_applied_in agreement p = p.customer_agreement == agreement && auto_applies p

unfoldable pub turn_on : Option ℕ → Action Unit
unfolding get_plan
turn_on none = pure tt
turn_on (some u) = do
  p ← get_plan u
  save_plan (record p { should_auto_apply_licenses = some true })

unfoldable pub toggle_auto_apply_licenses : ℕ → Option ℕ → Action Unit
toggle_auto_apply_licenses agreement subscription = do
  plans ← gets (λ w. select (auto_applied_in agreement) w.plans)
  turn_off_each plans
  turn_on subscription

abbrev pub is_copied : LicenseTypes → License → Bool
is_copied assigned_and_activated l = is_revocable l.status
is_copied activated_only l = is_activated l.status
is_copied nothing l = false

-- `_original_licenses_to_copy`
unfoldable pub original_licenses_to_copy : ℕ → LicenseTypes → World → List License
original_licenses_to_copy original_plan types w =
    select (λ l. in_plan original_plan l && is_copied types l) w.licenses

-- The future license, with what it takes over from the original one
abbrev pub renewed : Plan → ℕ → License → License → License
renewed future_plan now original future = record future {
  status = original.status;
  user_email = original.user_email;
  lms_user_id = original.lms_user_id;
  activation_key = original.activation_key;
  assigned_date = some now;
  activation_date =
      if is_activated original.status then some future_plan.start_date else future.activation_date;
}

-- `zip(original_licenses, future_plan.licenses.all())`: the future licenses, then the original ones
unfoldable pub future_of : Plan → ℕ → List License → List License → List License
future_of p now [] fs = []
future_of p now (o ∷ os) [] = []
future_of p now (o ∷ os) (f ∷ fs) = renewed p now o f ∷ future_of p now os fs

unfoldable pub linked_of : List License → List License → List License
linked_of [] fs = []
linked_of (o ∷ os) [] = o ∷ os
linked_of (o ∷ os) (f ∷ fs) = record o { renewed_to = some f.uuid } ∷ linked_of os fs

-- Who runs the renewal, and for what.
pub record Origin : Type 0 where
  pub is_auto_renewed : Bool
  pub actor_type : ActorType
  pub actor_lms_user_id : Option ℕ
  pub source : ActionSource
  pub correlation_id : Option ℕ

abbrev pub renewal_action : Origin → Renewal → Plan → ℕ → ℕ → License → License → LicenseAction
renewal_action by r p enterprise correlation original future = record {
  license = future.uuid;
  subscription_plan = p.uuid;
  enterprise_customer_uuid = enterprise;
  action_type = ActionType.renewed_action;
  actor_type = by.actor_type;
  actor_lms_user_id = by.actor_lms_user_id;
  learner_lms_user_id = future.lms_user_id;
  learner_email = future.user_email;
  learner_external_key = none;
  source = by.source;
  correlation_id = some correlation;
  metadata =
      Metadata.of_renewal r.id r.prior_subscription_plan p.uuid original.uuid original.status
        by.is_auto_renewed;
}

unfoldable pub renewal_actions :
    Origin → Renewal → Plan → ℕ → ℕ → List License → List License → List LicenseAction
renewal_actions by r p enterprise c [] fs = []
renewal_actions by r p enterprise c (o ∷ os) [] = []
renewal_actions by r p enterprise c (o ∷ os) (f ∷ fs) =
    renewal_action by r p enterprise c o f ∷ renewal_actions by r p enterprise c os fs

abbrev correlation : Option ℕ → Action ℕ
correlation none = take_uuids 1
correlation (some c) = pure c

-- `_renew_all_licenses`, under a correlation id
unfoldable pub renew_licenses_as : ℕ → List License → Plan → Renewal → Origin → Action Unit
renew_licenses_as c originals p r by = do
  now ← gets (λ w. w.now)
  existing ← gets (λ w. licenses_of p.uuid w.licenses)
  let futures = future_of p now originals existing
  bulk_update futures
  bulk_update (linked_of originals existing)
  agreement ← get_agreement p.customer_agreement
  modify_db (λ db. record db {
    actions =
        db.actions ++ renewal_actions by r p agreement.enterprise_customer_uuid c originals futures;
  })
  track_license_changes license_renewed futures

-- `_renew_all_licenses`
unfoldable pub renew_all_licenses : List License → Plan → Renewal → Origin → Action Unit
renew_all_licenses originals p r by = do
  c ← correlation by.correlation_id
  renew_licenses_as c originals p r by

-- A plan that `unique_together` of `SubscriptionPlan`, the title within an agreement, does not admit
-- beside this one; titles are compared as they are written
abbrev pub has_title_of : Plan → Plan → Bool
has_title_of p q =
    not (q.uuid == p.uuid) && q.customer_agreement == p.customer_agreement && (q.title === p.title)

-- `save` of a plan that may be new; saving one again keeps its title and its agreement
unfoldable pub save_future_plan : Plan → Action Unit
unfolding save_plan
save_future_plan p = do
  taken ← gets (λ w. exists (has_title_of p) w.plans)
  raise_if taken database_error
  save_plan p

-- The two one-to-one fields are unique in the database, where nulls do not count.
abbrev pub clashes : ℕ → ℕ → Option ℕ → Renewal → Bool
clashes id prior renewed r =
    not (r.id == id)
    && (r.prior_subscription_plan == prior
        || (is_some renewed && same r.renewed_subscription_plan renewed))

unfoldable pub save_renewal : Renewal → Action Unit
save_renewal r = do
  rows ← gets (λ w. w.renewals)
  raise_if (exists (clashes r.id r.prior_subscription_plan r.renewed_subscription_plan) rows)
      database_error
  modify_db (λ db. record db { renewals = upsert r db.renewals })

module _ (year : ℕ → String) where
  -- `get_renewed_plan_title`; an empty title is no title
  abbrev pub renewed_title : Renewal → Plan → String
  renewed_title r original =
      let default = original.title +++ " - Renewal " +++ year r.effective_date in
      elim r.renewed_plan_title [
        | none ↦ default
        | some title ↦ if len title == 0 then default else title
      ]

  -- The plan that a renewal creates where it has none.
  abbrev pub new_plan : Renewal → Plan → ℕ → ℕ → Plan
  new_plan r original uuid now = record {
    uuid = uuid;
    title = renewed_title r original;
    start_date = r.effective_date;
    expiration_date = r.renewed_expiration_date;
    expiration_processed = false;
    enterprise_catalog_uuid = original.enterprise_catalog_uuid;
    customer_agreement = original.customer_agreement;
    is_active = original.is_active;
    is_revocation_cap_enabled = original.is_revocation_cap_enabled;
    revoke_max_percentage = original.revoke_max_percentage;
    num_revocations_applied = 0;
    salesforce_opportunity_id = none;
    salesforce_opportunity_line_item = r.salesforce_opportunity_id;
    product = original.product;
    for_internal_use_only = original.for_internal_use_only;
    can_freeze_unused_licenses = false;
    last_freeze_timestamp = none;
    should_auto_apply_licenses = none;
    desired_num_licenses = none;
    created = now;
  }

  abbrev pub future_plan : Renewal → Plan → Option Plan → Action Plan
  future_plan r original (some p) = pure p
  future_plan r original none = do
    u ← take_uuids 1
    now ← gets (λ w. w.now)
    pure (new_plan r original u now)

  -- What the transaction of `renew_subscription` writes.
  unfoldable pub renew_into : Renewal → Plan → Plan → List License → Origin → Action Unit
  renew_into r original future originals by = do
    save_future_plan future
    current ← gets (λ w. num_licenses future.uuid w.licenses)
    increase_num_licenses future.uuid (r.number_of_licenses - current)
    renew_all_licenses originals future r by
    when (auto_applies original) (
        toggle_auto_apply_licenses original.customer_agreement
          (if r.disable_auto_apply_licenses then none else some future.uuid))
    now ← gets (λ w. w.now)
    save_renewal (record r {
      renewed_subscription_plan = some future.uuid;
      processed = true;
      processed_datetime = some now;
    })

  -- `renew_subscription`, on a renewal and the plans that its object refers to
  unfoldable pub renew_subscription : Renewal → Plan → Option Plan → Origin → Action Unit
  renew_subscription r original renewed_plan by = do
    originals ← gets (original_licenses_to_copy original.uuid r.license_types_to_copy)
    raise_if (ltb r.number_of_licenses (length originals)) renewal_processing_error
    future ← future_plan r original renewed_plan
    existing ← gets (λ w. licenses_of future.uuid w.licenses)
    raise_if (exists (λ l. not (is_unassigned l.status)) existing) renewal_processing_error
    raise_if (ltb r.number_of_licenses (length existing)) renewal_processing_error
    atomic (renew_into r original future originals by)

  -- The query of `process_renewals`, with the plans that `select_related` loads with each renewal
  abbrev pub is_due : ℕ → ℕ → Renewal → Bool
  is_due now window r =
      leb now r.effective_date
      && leb r.effective_date (now + hour * window)
      && not r.processed
      && not r.exempt_from_batch_processing

  abbrev pub with_plans : List Plan → List Renewal → List (Renewal × Plan × Option Plan)
  with_plans plans [] = []
  with_plans plans (r ∷ rest) =
      let others = with_plans plans rest in
      elim (find r.prior_subscription_plan plans) [
        | none ↦ others
        | some p ↦
            (r, p, elim r.renewed_subscription_plan [ none ↦ none | some u ↦ find u plans ])
            ∷ others
      ]

  -- The loop of `process_renewals`, which goes on after a RenewalProcessingError: the plans renewed
  unfoldable pub renew_each : Origin → List (Renewal × Plan × Option Plan) → Action (List ℕ)
  renew_each by [] w = (ok [], w)
  renew_each by ((r, original, future) ∷ rest) w =
      let (result, w') = renew_subscription r original future by w in
      let (results, w'') = renew_each by rest w' in
      elim result [
        | ok done ↦ elim results [ ok us ↦ (ok (original.uuid ∷ us), w'') | err e ↦ (err e, w'') ]
        | err renewal_processing_error ↦ (results, w'')
        | err e ↦ (err e, w')
      ]

  -- `process_renewals` without and with `--dry-run`
  unfoldable pub process_renewals : ℕ → Bool → Action (List ℕ)
  process_renewals window dry_run = do
    due ← gets (λ w. with_plans w.plans (select (is_due w.now window) w.renewals))
    if dry_run then pure [] else do
      c ← take_uuids 1
      renew_each
          (record {
            is_auto_renewed = true;
            actor_type = ActorType.system;
            actor_lms_user_id = none;
            source = ActionSource.renewal_job;
            correlation_id = some c;
          })
          due
