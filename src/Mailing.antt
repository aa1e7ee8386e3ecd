-- ===== src/Mailing.antt =====
-- Emails to learners about the end of their plan: the commands send_license_expiration_reminders.py
-- and send_subscription_plan_expiration_emails.py (subscriptions/management/commands), which share
-- their structure: what differs is a clause for each `Campaign`. The options in days and the batch
-- size are natural numbers; the enterprise customers are given as the words of the option, `none`
-- for a word that is no UUID. The attributes of a message beside its recipients are not modelled.
mod Senders
pub mod Pages
pub mod Rounds
pub mod Snapshot
pub mod Marked
pub mod Again
pub mod Command
mod Tests
unfoldable pub use Senders.*
use license_manager.Base.{
  ℕ, zero, suc, ◌+◌, Bool, Option, none, some, List, [], ◌∷◌, count, map, length, ltb, ◌==◌,
  if◌then◌else◌,
}
use license_manager.Base.Pages.{last_key}
use license_manager.Models.{License, license_keyed}
use license_manager.Store.{
  Action, pure, raise, gets, raise_if, bulk_update, command_failed, value_error, ◌>>=◌, ◌>>◌,
}
use license_manager.Retirement.{tables, Query, batch}

pub data Campaign : Type 0 where
  expiration_reminder plan_expiration : Campaign

abbrev pub expiring : Campaign → (enterprise days : ℕ) → Query
unfolding expiring_licenses recently_expired_plan_licenses
expiring expiration_reminder = expiring_licenses
expiring plan_expiration = recently_expired_plan_licenses

abbrev pub send_emails_batch :
    Campaign → Services → List License → Action (List License × List License)
unfolding send_expiration_reminder_emails_batch send_subscription_expiration_emails_batch
send_emails_batch expiration_reminder = send_expiration_reminder_emails_batch
send_emails_batch plan_expiration = send_subscription_expiration_emails_batch

abbrev pub sent_at : Campaign → ℕ → License → License
sent_at expiration_reminder now l = record l { expiration_reminder_sent_date = some now }
sent_at plan_expiration now l = record l { subscription_plan_expiration_email_sent_date = some now }

-- The numbers of licenses whose message was sent, and whose message failed
pub record Counts : Type 0 where
  pub success_count : ℕ
  pub failure_count : ℕ

abbrev pub no_counts : Counts
no_counts = record { success_count = 0; failure_count = 0 }

abbrev mark_as_sent : Campaign → List License → Action Unit
mark_as_sent c licenses = do now ← gets (λ w. w.now); bulk_update (map (sent_at c now) licenses)

abbrev counted : Counts → List License → List License → Counts
counted counts successful failed = record {
  success_count = counts.success_count + length successful;
  failure_count = counts.failure_count + length failed;
}

-- One round of the loop of `_process_enterprise_customer`
unfoldable pub process_batch : Campaign → Services → List License → Counts → Action Counts
unfolding send_emails_batch
process_batch c services licenses counts =
    except_others
      (do
        sent ← send_emails_batch c services licenses
        mark_as_sent c sent.0
        pure (counted counts sent.0 sent.1))
      (counted counts [] licenses)

-- `for license_batch in self._get_..._in_batches(...)`: a batch is read when the loop comes to it,
-- and its last key is the offset of the next one.
unfoldable pub process_batches :
    ℕ → Campaign → Services → Query → ℕ → Option ℕ → Counts → Action Counts
process_batches zero c services q batch_size offset counts = pure counts
process_batches (suc fuel) c services q batch_size offset counts = do
  licenses ← gets (batch q batch_size offset)
  elim (last_key licenses) [
    | none ↦ pure counts
    | some last ↦ do
      more ← process_batch c services licenses counts
      process_batches fuel c services q batch_size (some last) more
  ]

-- `_process_enterprise_customer`; a dry run only logs. There are at most as many batches as licenses.
unfoldable pub process_enterprise_customer :
    Campaign → Services → (enterprise days : ℕ) (dry_run : Bool) (batch_size : ℕ) → Action Counts
unfolding process_batches
process_enterprise_customer c services enterprise days dry_run batch_size = do
  let q = expiring c enterprise days
  total_count ← gets (λ w. count (q (tables w)) w.licenses)
  fuel ← gets (λ w. length w.licenses)
  if total_count == 0
      then pure no_counts
      else if dry_run
      then pure no_counts
      else (call (services.get_enterprise_customer_data enterprise)
          >> process_batches fuel c services q batch_size none no_counts)

-- `_parse_enterprise_customer_uuids`, on the words of the option that are not empty
unfoldable pub parse_enterprise_customer_uuids : List (Option ℕ) → Action (List ℕ)
parse_enterprise_customer_uuids [] = pure []
parse_enterprise_customer_uuids (none ∷ words) = raise value_error
parse_enterprise_customer_uuids (some u ∷ words) = do
  uuids ← parse_enterprise_customer_uuids words
  pure (u ∷ uuids)

abbrev add_counts : Counts → Counts → Counts
add_counts a b = record {
  success_count = a.success_count + b.success_count;
  failure_count = a.failure_count + b.failure_count;
}

abbrev one_failure : Counts
one_failure = record { success_count = 0; failure_count = 1 }

-- The loop of `handle`; a customer that could not be processed counts as one failure.
unfoldable pub process_customers :
    Campaign
    → Services
    → (days : ℕ) (dry_run : Bool) (batch_size : ℕ) → List ℕ
    → Counts
    → Action Counts
unfolding process_enterprise_customer
process_customers c services days dry_run batch_size [] total = pure total
process_customers c services days dry_run batch_size (u ∷ uuids) total = do
  result ←
      except_others (process_enterprise_customer c services u days dry_run batch_size) one_failure
  process_customers c services days dry_run batch_size uuids (add_counts total result)

-- `handle`
unfoldable pub handle :
    Campaign
    → Services
    → (words : List (Option ℕ)) (days : ℕ) (dry_run : Bool) (batch_size : ℕ) → Action Unit
unfolding parse_enterprise_customer_uuids process_customers
handle c services words days dry_run batch_size = do
  uuids ← parse_enterprise_customer_uuids words
  raise_if (length uuids == 0) value_error
  total ← process_customers c services days dry_run batch_size uuids no_counts
  raise_if (ltb 0 total.failure_count) command_failed

-- The two commands
unfoldable pub send_license_expiration_reminders :
    Services
    → (words : List (Option ℕ)) (days_before_expiration : ℕ) (dry_run : Bool) (batch_size : ℕ)
    → Action Unit
unfolding handle
send_license_expiration_reminders = handle expiration_reminder

unfoldable pub send_subscription_plan_expiration_emails :
    Services
    → (words : List (Option ℕ)) (days_since_expiration : ℕ) (dry_run : Bool) (batch_size : ℕ)
    → Action Unit
unfolding handle
send_subscription_plan_expiration_emails = handle plan_expiration
