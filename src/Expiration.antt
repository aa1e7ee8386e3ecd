-- ===== src/Expiration.antt =====
-- Expiring plans: the command `expire_subscriptions` with `license_expiration_task` (api/tasks.py), the
-- signal of a plan that was marked, and the chains of renewals of `SubscriptionPlan`
-- (subscriptions/models.py). `client` says of the uuids of one call whether the enterprise API fails.
pub mod Chains
pub mod Calls
pub mod Marked
pub mod Whole
mod Tests
use license_manager.Base.{
  ℕ, zero, suc, ◌+◌, Bool, true, false, not, ◌&&◌, ◌||◌, Option, none, some, List, [], ◌∷◌, exists,
  select, first, map, length, order_by, is_some, same, ltb, leb, ◌==◌, if◌then◌else◌,
}
use mathlib.Core.List.{reverse}
use license_manager.Base.Integer.{ℤ, ltb_ℤ}
use license_manager.Models.{
  License, Plan, Renewal, is_revocable, licenses_of, day, license_expired, hours_until, days_until,
  days_until_expiration,
}
use license_manager.Store.{
  Action, World, Result, ok, err, Error, pure, raise, raise_if, gets, when, modify_db, delay,
  get_plan, track_license_changes, Task, api_error, command_failed, ◌>>=◌, ◌>>◌,
}
use license_manager.Provisioning.{chunks}

-- LICENSE_EXPIRATION_BATCH_SIZE
abbrev pub license_expiration_batch_size : ℕ
license_expiration_batch_size = 100

unfoldable pub license_expiration_task : (client : List ℕ → Bool) → List ℕ → Option ℕ → Action Unit
license_expiration_task client license_uuids ignore_enrollments_modified_after = do
  delay (Task.license_expiration license_uuids ignore_enrollments_modified_after)
  raise_if (client license_uuids) api_error

-- `try: ... except Exception: any_failures = True`
unfoldable pub fails : Action Unit → Action Bool
fails m w = let (r, w') = m w in elim r [ ok a ↦ (ok false, w') | err e ↦ (ok true, w') ]

-- The loop over the chunks: whether any of them failed
unfoldable pub expire_chunks :
    (client : List ℕ → Bool) → Option ℕ → List (List License) → Action Bool
unfolding license_expiration_task fails
expire_chunks client ignore_modified_after [] = pure false
expire_chunks client ignore_modified_after (license_chunk ∷ rest) = do
  failed ← fails (
      license_expiration_task client (map (λ (l : License). l.uuid) license_chunk)
        ignore_modified_after)
  more ← expire_chunks client ignore_modified_after rest
  pure (failed || more)

abbrev pub with_mark : ℕ → Plan → Plan
with_mark u p = if p.uuid == u then record p { expiration_processed = true } else p

abbrev pub is_renewed : License → Bool
is_renewed l = is_some l.renewed_to

-- `plan.save(update_fields=['expiration_processed'])`, with `dispatch_license_expiration_event`
unfoldable pub mark_processed : Plan → Action Unit
mark_processed p = do
  modify_db (λ db. record db { plans = map (with_mark p.uuid) db.plans })
  licenses ← gets (λ w. licenses_of p.uuid w.licenses)
  track_license_changes license_expired (select (λ l. not (is_renewed l)) licenses)

-- `expiration_date < now - 1 day`
abbrev pub ignore_enrollments_modified_after : Plan → ℕ → Option ℕ
ignore_enrollments_modified_after p now =
    if ltb (p.expiration_date + day) now then some p.expiration_date else none

-- `_expire_subscription_plan`
unfoldable pub expire_subscription_plan : (client : List ℕ → Bool) → Plan → Action Unit
expire_subscription_plan client p = do
  licenses ← gets (λ w. licenses_of p.uuid w.licenses)
  now ← gets (λ w. w.now)
  let expired_licenses = select (λ l. is_revocable l.status) licenses
  any_failures ←
      expire_chunks client (ignore_enrollments_modified_after p now)
        (chunks expired_licenses license_expiration_batch_size)
  when (not any_failures) (mark_processed p)

-- `get_renewal` and `get_origin_renewal`: each plan has at most one of either.
unfoldable pub get_renewal : List Renewal → ℕ → Option Renewal
get_renewal renewals u = first (λ r. r.prior_subscription_plan == u) renewals

unfoldable pub get_origin_renewal : List Renewal → ℕ → Option Renewal
get_origin_renewal renewals u = first (λ r. same r.renewed_subscription_plan (some u)) renewals

-- Following the renewals from plan to plan, for at most as many steps as the fuel allows
unfoldable pub follow : ℕ → (ℕ → Option Renewal) → (Renewal → Option ℕ) → ℕ → List Renewal
follow zero renewal_of onward u = []
follow (suc fuel) renewal_of onward u = elim (renewal_of u) [
  | none ↦ []
  | some r ↦ r ∷ elim (onward r) [ none ↦ [] | some v ↦ follow fuel renewal_of onward v ]
]

abbrev pub prior_plan : Renewal → Option ℕ
prior_plan r = some r.prior_subscription_plan

-- The loops `while renewal:`, which never end on a cycle of renewals; without one there are at most as
-- many steps as renewals.
unfoldable pub prior_renewals : List Renewal → ℕ → List Renewal
unfolding get_origin_renewal follow
prior_renewals renewals u =
    reverse (follow (suc (length renewals)) (get_origin_renewal renewals) prior_plan u)

unfoldable pub future_renewals : List Renewal → ℕ → List Renewal
unfolding get_renewal follow
future_renewals renewals u =
    follow (suc (length renewals)) (get_renewal renewals) (λ r. r.renewed_subscription_plan) u

unfoldable pub expire_priors : (client : List ℕ → Bool) → List Renewal → Action Unit
unfolding expire_subscription_plan get_plan
expire_priors client [] = pure tt
expire_priors client (r ∷ rest) = do
  p ← get_plan r.prior_subscription_plan
  expire_subscription_plan client p
  expire_priors client rest

unfoldable pub expire_each : (client : List ℕ → Bool) → List Plan → Action Unit
unfolding expire_subscription_plan get_renewal prior_renewals expire_priors
expire_each client [] = pure tt
expire_each client (p ∷ rest) = do
  renewals ← gets (λ w. w.renewals)
  when (not (is_some (get_renewal renewals p.uuid)))
      (do expire_subscription_plan client p; expire_priors client (prior_renewals renewals p.uuid))
  expire_each client rest

pub record Options : Type 0 where
  pub expiration_date_from : ℕ
  pub expiration_date_to : ℕ
  pub subscription_uuids : List ℕ
  pub force : Bool
  pub dry_run : Bool

abbrev pub has_uuids : Options → Bool
has_uuids o = exists (λ u. true) o.subscription_uuids

-- `filters`
unfoldable pub is_expired_plan : Options → ℕ → Plan → Bool
is_expired_plan o now p =
    if has_uuids o
    then exists (λ u. u == p.uuid) o.subscription_uuids && leb p.expiration_date now
    else leb o.expiration_date_from p.expiration_date
      && leb p.expiration_date o.expiration_date_to
      && (o.force || not p.expiration_processed)

abbrev pub by_start : Plan → Plan → Bool
by_start a b = leb a.start_date b.start_date

-- `handle` of expire_subscriptions.py
unfoldable pub expire_subscriptions : (client : List ℕ → Bool) → Options → Action Unit
unfolding is_expired_plan expire_each
expire_subscriptions client o = do
  now ← gets (λ w. w.now)
  plans ← gets (λ w. order_by by_start (select (is_expired_plan o now) w.plans))
  if ltb now o.expiration_date_from || ltb now o.expiration_date_to
      then pure tt
      else if not (exists (λ p. true) plans)
      then raise_if (has_uuids o) command_failed
      else when (not o.dry_run) (expire_each client plans)

-- `max(...)` of a list of instants; there is none of an empty list.
abbrev pub latest : List ℕ → Option ℕ
latest [] = none
latest (x ∷ xs) =
    let rest = latest xs in elim rest [ none ↦ some x | some y ↦ some (if ltb x y then y else x) ]

unfoldable pub days_until_expiration_including_renewals : List Renewal → ℕ → Plan → ℤ
unfolding future_renewals days_until days_until_expiration
days_until_expiration_including_renewals renewals now p =
    elim (latest (map (λ r. r.renewed_expiration_date) (future_renewals renewals p.uuid))) [
      | none ↦ days_until_expiration now p
      | some date ↦ days_until now date
    ]

-- SUBSCRIPTION_PLAN_RENEWAL_LOCK_PERIOD_HOURS
abbrev pub renewal_lock_period_hours : ℕ
renewal_lock_period_hours = 12

unfoldable pub is_locked_for_renewal_processing : List Renewal → ℕ → Plan → Bool
unfolding get_renewal hours_until
is_locked_for_renewal_processing renewals now p = elim (get_renewal renewals p.uuid) [
  | none ↦ false
  | some r ↦
      let hours = hours_until now r.effective_date in
      if ltb_ℤ hours (ℤ.pos 0) then false else ltb_ℤ hours (ℤ.pos renewal_lock_period_hours)
]
