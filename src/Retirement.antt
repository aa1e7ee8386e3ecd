-- ===== src/Retirement.antt =====
-- Retiring the data of learners: the command `retire_old_licenses` with
-- `License.get_licenses_exceeding_purge_duration` (subscriptions/models.py), and
-- `UserRetirementView.post` (api/v1/views.py). The history of a license (`clear_historical_pii`) is a
-- table of django-simple-history and not modelled. The number of a license is its uuid and its primary
-- key: licenses are numbered in the order in which they are created.
pub mod Pass
pub mod Pages
pub mod Batches
pub mod Whole
pub mod Users
mod Tests
use license_manager.Base.{
  ℕ, zero, suc, ◌+◌, Bool, true, false, not, ◌&&◌, Option, none, some, List, [], ◌∷◌, select,
  length, take, order_by, is_some, ltb, ◌==◌, same, if◌then◌else◌,
}
use license_manager.Base.Table.{find}
use license_manager.Base.Pages.{by_key, behind, last_key}
use license_manager.Models.{
  License, Plan, Agreement, license_keyed, plan_keyed, agreement_keyed, clear_pii,
  reset_to_unassigned, revoked, is_revoked, is_assigned, license_revoked,
}
use license_manager.Store.{
  Action, World, Result, ok, err, pure, gets, save_license, track_event, delete_source, ◌>>=◌, ◌>>◌,
}

-- What a query on licenses joins and compares with.
pub record Tables : Type 0 where
  pub plans : List Plan
  pub agreements : List Agreement
  pub now : ℕ

abbrev pub tables : World → Tables
tables w = record { plans = w.plans; agreements = w.agreements; now = w.now }

abbrev pub plan_of : Tables → License → Option Plan
plan_of t l = find l.subscription_plan t.plans

-- `subscription_plan__customer_agreement__license_duration_before_purge`
abbrev pub duration_before_purge : Tables → License → Option ℕ
duration_before_purge t l = elim (plan_of t l) [
  | none ↦ none
  | some p ↦ elim (find p.customer_agreement t.agreements) [
    | none ↦ none
    | some a ↦ some a.license_duration_before_purge
  ]
]

-- `date_field_to_compare`
pub data DateField : Type 0 where
  plan_expiration_date license_revoked_date license_assigned_date : DateField

abbrev pub date_of : DateField → Tables → License → Option ℕ
date_of plan_expiration_date t l = elim (plan_of t l) [
  | none ↦ none
  | some p ↦ some p.expiration_date
]
date_of license_revoked_date t l = l.revoked_date
date_of license_assigned_date t l = l.assigned_date

-- `date < now - duration`, which is false of a null
abbrev pub is_older : Option ℕ → Option ℕ → ℕ → Bool
is_older (some date) (some duration) now = ltb (date + duration) now
is_older _ _ now = false

abbrev pub exceeds_purge_duration : DateField → Tables → License → Bool
exceeds_purge_duration field t l =
    is_some l.user_email && is_older (date_of field t l) (duration_before_purge t l) t.now

-- `subscription_plan__for_internal_use_only=False`
abbrev pub is_external : Tables → License → Bool
is_external t l = elim (plan_of t l) [ none ↦ false | some p ↦ not p.for_internal_use_only ]

abbrev pub Query : Type 0
Query = Tables → License → Bool

-- The three queries of `handle`
unfoldable pub expired_for_retirement : Query
expired_for_retirement = exceeds_purge_duration plan_expiration_date

unfoldable pub revoked_for_retirement : Query
revoked_for_retirement t l =
    is_revoked l.status && is_external t l && exceeds_purge_duration license_revoked_date t l

unfoldable pub assigned_for_retirement : Query
assigned_for_retirement t l =
    is_assigned l.status && is_external t l && exceeds_purge_duration license_assigned_date t l

-- `base_queryset.filter(pk__gt=offset)[:batch_size]`
abbrev pub batch : Query → ℕ → Option ℕ → World → List License
batch q batch_size offset w =
    take batch_size (order_by by_key (select (λ l. q (tables w) l && behind offset l) w.licenses))

-- The offsets of the batches that `get_licenses_exceeding_purge_duration` yields.
unfoldable pub offsets : ℕ → Query → ℕ → Option ℕ → World → List (Option ℕ)
offsets zero q batch_size offset w = []
offsets (suc fuel) q batch_size offset w =
    let last = last_key (batch q batch_size offset w) in
    let rest = offsets fuel q batch_size last w in if is_some last then offset ∷ rest else []

unfoldable pub for_each : (License → Action Unit) → List License → Action Unit
for_each act [] = pure tt
for_each act (l ∷ rest) = act l >> for_each act rest

-- `for license in chain(*batches)`: a batch is read from the database when the loop comes to it.
unfoldable pub chain_each : Query → ℕ → (License → Action Unit) → List (Option ℕ) → Action Unit
unfolding for_each
chain_each q batch_size act [] = pure tt
chain_each q batch_size act (offset ∷ rest) = do
  licenses ← gets (batch q batch_size offset)
  for_each act licenses
  chain_each q batch_size act rest

-- `chain(*...)` makes all the batches before the first one is read; there are at most as many as rows.
unfoldable pub retire_batches : Query → ℕ → (License → Action Unit) → Action Unit
unfolding offsets chain_each
retire_batches q batch_size act = do
  found ← gets (λ w. offsets (length w.licenses) q batch_size none w)
  chain_each q batch_size act found

unfoldable pub as_expired : ℕ → License → License
unfolding clear_pii
as_expired now l = record (clear_pii l) { status = revoked; revoked_date = some now }

unfoldable pub retire_expired : License → Action Unit
unfolding as_expired
retire_expired l = do
  now ← gets (λ w. w.now)
  let expired_license = as_expired now l
  save_license expired_license
  track_event license_revoked expired_license
  delete_source expired_license

unfoldable pub retire_revoked : License → Action Unit
unfolding clear_pii
retire_revoked l = save_license (clear_pii l) >> delete_source (clear_pii l)

unfoldable pub retire_assigned : License → Action Unit
unfolding reset_to_unassigned
retire_assigned l = save_license (reset_to_unassigned l) >> delete_source (reset_to_unassigned l)

-- The default of `batch_size`, which is also taken when the option is zero
abbrev pub batch_size_of : Option ℕ → ℕ
batch_size_of none = 1000
batch_size_of (some zero) = 1000
batch_size_of (some (suc n)) = suc n

-- `handle` of retire_old_licenses.py
unfoldable pub retire_old_licenses : Option ℕ → Action Unit
unfolding retire_batches
retire_old_licenses batch_size = do
  retire_batches expired_for_retirement (batch_size_of batch_size) retire_expired
  retire_batches revoked_for_retirement (batch_size_of batch_size) retire_revoked
  retire_batches assigned_for_retirement (batch_size_of batch_size) retire_assigned

-- What the deletion of a user does, by Django's user model
pub data Deletion : Type 0 where
  user_deleted user_not_found deletion_failed : Deletion

abbrev pub retire_license : License → License
unfolding clear_pii reset_to_unassigned
retire_license l = if is_revoked l.status then clear_pii l else reset_to_unassigned l

unfoldable pub retire_user_license : License → Action Unit
retire_user_license l = save_license (retire_license l) >> delete_source (retire_license l)

-- `UserRetirementView.post` past its permissions; a missing field of the request is null.
unfoldable pub post_retirement :
    (delete_user : ℕ → Deletion) (lms_user_id original_username : Option ℕ) → Action ℕ
unfolding for_each
post_retirement delete_user (some lms_user_id) (some original_username) = do
  licenses ← gets (λ w. select (λ l. same l.lms_user_id (some lms_user_id)) w.licenses)
  for_each retire_user_license licenses
  pure (elim (delete_user original_username) [
    | user_deleted ↦ 204
    | user_not_found ↦ 404
    | deletion_failed ↦ 500
  ])
post_retirement delete_user _ _ = pure 400
