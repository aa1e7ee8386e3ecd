-- ===== src/Unlinking.antt =====
-- Unlinking the learners of licenses that expired long ago: the command `unlink_expired_licenses` with
-- `License.for_user_and_customer` (subscriptions/models.py). `client` says of the emails of one call
-- whether the enterprise API fails.
pub mod Notes
pub mod Whole
mod Tests
use license_manager.Base.{
  ℕ, ◌+◌, ◌*◌, Bool, true, false, not, ◌&&◌, ◌||◌, Option, none, some, List, [], ◌∷◌, ◌++◌, exists,
  first, select, map, is_some, same, ltb, ◌==◌, if◌then◌else◌,
}
use license_manager.Base.Table.{find}
use license_manager.Models.{
  License, Plan, Agreement, LicenseEvent, LicenseEventName, expired_license_unlinked, plan_keyed,
  agreement_keyed, is_revocable, is_current, day,
}
use license_manager.Store.{
  World, Action, Result, ok, err, pure, raise_if, or_raise, gets, when, delay, modify_db,
  unlink_users, api_error, does_not_exist, ◌>>=◌, ◌>>◌,
}
use license_manager.Provisioning.{chunks}

-- `by_user_email_or_lms_user_id`; the email may be null, and then finds the licenses without one.
abbrev pub by_user_email_or_lms_user_id : Option ℕ → Option ℕ → License → Bool
by_user_email_or_lms_user_id user_email lms_user_id l =
    same l.user_email user_email || is_some lms_user_id && same l.lms_user_id lms_user_id

-- The plan of a license is one of the customer's, and active and current where that is asked for.
abbrev pub plan_fits : (enterprise : ℕ) (active_only current_only : Bool) → World → License → Bool
unfolding is_current
plan_fits enterprise active_only current_only w l = elim (find l.subscription_plan w.plans) [
  | none ↦ false
  | some p ↦ elim (find p.customer_agreement w.agreements) [
    | none ↦ false
    | some a ↦
        a.enterprise_customer_uuid == enterprise
        && (not active_only || p.is_active)
        && (not current_only || is_current w.now p)
  ]
]

unfoldable pub for_user_and_customer :
    (user_email lms_user_id : Option ℕ) (enterprise : ℕ) (active_only current_only : Bool)
    → World
    → List License
for_user_and_customer user_email lms_user_id enterprise active_only current_only w =
    select
      (λ l.
        by_user_email_or_lms_user_id user_email lms_user_id l
        && plan_fits enterprise active_only current_only w l)
      w.licenses

-- `exclude(Exists(event_exists_subquery))`
abbrev pub was_unlinked : License → List LicenseEvent → Bool
was_unlinked l events = exists (λ e. e.license == l.uuid) events

-- A plan of the agreement that expired more than 90 days ago
abbrev pub is_long_expired : Agreement → World → License → Bool
is_long_expired a w l = elim (find l.subscription_plan w.plans) [
  | none ↦ false
  | some p ↦ p.customer_agreement == a.uuid && ltb (p.expiration_date + 90 * day) w.now
]

-- `expired_licenses`
abbrev pub is_expired_license : Agreement → World → License → Bool
is_expired_license a w l =
    is_revocable l.status
    && not (is_some l.renewed_to)
    && is_long_expired a w l
    && not (was_unlinked l w.license_events)

unfoldable pub has_other_licenses : ℕ → World → License → Bool
unfolding for_user_and_customer
has_other_licenses enterprise w l =
    exists (λ o. true) (for_user_and_customer l.user_email l.lms_user_id enterprise true true w)

abbrev pub unlinked_event : License → LicenseEvent
unlinked_event l = record { license = l.uuid; event_name = expired_license_unlinked }

-- The call of the enterprise API
unfoldable pub bulk_unlink : (client : List (Option ℕ) → Bool) → ℕ → List (Option ℕ) → Action Unit
bulk_unlink client enterprise user_emails = do
  delay (unlink_users enterprise user_emails)
  raise_if (client user_emails) api_error

-- One page
unfoldable pub unlink_page :
    (client : List (Option ℕ) → Bool) → ℕ → Bool → List License → Action Unit
unfolding bulk_unlink
unlink_page client enterprise unlink licenses = do
  to_unlink ← gets (λ w. select (λ l. not (has_other_licenses enterprise w l)) licenses)
  when (unlink && exists (λ (l : License). true) to_unlink) (do
    bulk_unlink client enterprise (map (λ (l : License). l.user_email) to_unlink)
    modify_db
        (λ db. record db { license_events = db.license_events ++ map unlinked_event to_unlink }))

unfoldable pub unlink_pages :
    (client : List (Option ℕ) → Bool) → ℕ → Bool → List (List License) → Action Unit
unfolding unlink_page
unlink_pages client enterprise unlink [] = pure tt
unlink_pages client enterprise unlink (licenses ∷ rest) =
    unlink_page client enterprise unlink licenses >> unlink_pages client enterprise unlink rest

-- The paginator slices the licenses that were read at the start.
unfoldable pub unlink_expired_licenses : (client : List (Option ℕ) → Bool) → ℕ → Bool → Action Unit
unfolding unlink_pages
unlink_expired_licenses client enterprise unlink = do
  found ←
      gets (λ w. first (λ (a : Agreement). a.enterprise_customer_uuid == enterprise) w.agreements)
  customer_agreement ← or_raise found does_not_exist
  licenses ← gets (λ w. select (is_expired_license customer_agreement w) w.licenses)
  unlink_pages client enterprise unlink (chunks licenses 100)

-- `handle`, for the customers of the settings
unfoldable pub unlink_customers : (client : List (Option ℕ) → Bool) → Bool → List ℕ → Action Unit
unfolding unlink_expired_licenses
unlink_customers client dry_run [] = pure tt
unlink_customers client dry_run (enterprise ∷ rest) =
    unlink_expired_licenses client enterprise (not dry_run) >> unlink_customers client dry_run rest
