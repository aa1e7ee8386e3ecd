-- ===== src/Mailing/Tests.antt =====
-- The two commands on the sample database, where the learners' batches have one license each.
use license_manager.Base.{
  ℕ, ◌≡◌, refl, true, false, none, some, List, [], ◌∷◌, arith, length, select, not, if◌then◌else◌,
  exists, same, map, ◌*◌, ◌+◌,
}
use license_manager.Models.{License, day, new_license}
use license_manager.Store.{World, ok, err, api_error, command_failed, value_error, bulk_update}
use license_manager.Provisioning.{chunks}
use license_manager.Provisioning.Batches.{concat}
use license_manager.Mailing.{
  Services, expiration_reminder, process_enterprise_customer, no_counts, handle, expiring,
  process_batch, expiring_licenses, send_license_expiration_reminders,
  send_subscription_plan_expiration_emails,
}
use license_manager.Mailing.Snapshot.{
  process_enterprise_customer_snapshot, process_each, recipients,
}
use license_manager.Mailing.Marked.{process_enterprise_customer_lem, is_sent, with_marked, stops}
use license_manager.Mailing.Command.{handle_again}
use license_manager.Samples.{world, active_license, open_plan}

-- The open plan ends four days after the clock's day.
abbrev today : World
today = record world {
  db = record world.db {
    plans = record open_plan { expiration_date = 4 * day + 9000 } ∷ [];
    licenses =
        record active_license { uuid = 13; user_email = some 34 }
        ∷ active_license
        ∷ record active_license { uuid = 11; user_email = some 32 }
        ∷ new_license 1 12
        ∷ [];
  };
}

-- Braze fails for the learner 32.
abbrev some_fail : Services
some_fail = record {
  create_braze_alias_for_emails = λ emails. none;
  send_campaign_message =
      λ emails. if exists (λ e. same e (some 32)) emails then some api_error else none;
  get_enterprise_customer_data = λ u. none;
  is_campaign_configured = true;
}

abbrev all_answer : Services
all_answer = record some_fail { send_campaign_message = λ emails. none }

-- `some_fail` raises nothing that stops a command.
some_fail_runs : (xs : List License) → stops some_fail xs ≡ false
some_fail_runs xs = ground arith

process_enterprise_customer_snapshot_example :
    process_enterprise_customer expiration_reminder some_fail 500 4 false 1 today
    ≡ process_each expiration_reminder some_fail
        (chunks (recipients expiration_reminder 500 4 today) 1)
        no_counts
        today
process_enterprise_customer_snapshot_example =
    process_enterprise_customer_snapshot expiration_reminder some_fail 500 4 1 today (omega arith)
      (refl, (refl, (refl, (refl, tt)))) refl

process_enterprise_customer_lem_example :
    let batches = chunks (recipients expiration_reminder 500 4 today) 1 in
    let sent = select (is_sent some_fail) batches in
    let failed = select (λ xs. not (is_sent some_fail xs)) batches in
    process_enterprise_customer expiration_reminder some_fail 500 4 false 1 today ≡ (
      ok (record { success_count = length (concat sent); failure_count = length (concat failed) }),
      with_marked expiration_reminder sent today,
    )
process_enterprise_customer_lem_example =
    process_enterprise_customer_lem expiration_reminder some_fail 500 4 1 today (omega arith)
      (refl, (refl, (refl, (refl, tt)))) refl some_fail_runs

handle_again_example :
    let (result, after) =
      handle expiration_reminder all_answer (some 500 ∷ some 501 ∷ []) 4 false 1 today in
    handle expiration_reminder some_fail (some 500 ∷ some 501 ∷ []) 4 true 7 after ≡ (result, after)
handle_again_example =
    handle_again expiration_reminder all_answer some_fail (some 500 ∷ some 501 ∷ []) 4 1 7 true
      today (omega arith) (refl, (refl, (refl, (refl, tt)))) (λ u. refl) (λ xs. refl)

abbrev uuids_of : List License → List ℕ
uuids_of = map (λ (l : License). l.uuid)

-- Two of the three licenses are marked, in the order of their keys.
marks :
    uuids_of
      (concat (select (is_sent some_fail) (chunks (recipients expiration_reminder 500 4 today) 1)))
    ≡ 10 ∷ 13 ∷ []
unfolding chunks expiring_licenses expiring
marks = refl

reported :
    (process_enterprise_customer expiration_reminder some_fail 500 4 false 1 today).0
    ≡ ok (record { success_count = 2; failure_count = 1 })
unfolding process_enterprise_customer expiring process_batch bulk_update
reported = refl

command_fails :
    (send_license_expiration_reminders some_fail (some 500 ∷ []) 4 false 1 today).0
    ≡ err command_failed
unfolding send_license_expiration_reminders process_enterprise_customer expiring process_batch
    bulk_update
command_fails = refl

not_yet_expired :
    (send_subscription_plan_expiration_emails some_fail (some 500 ∷ []) 4 false 1 today).0 ≡ ok tt
unfolding send_subscription_plan_expiration_emails process_enterprise_customer expiring
    process_batch bulk_update
not_yet_expired = refl

no_uuid :
    (send_license_expiration_reminders some_fail (some 500 ∷ none ∷ []) 4 false 1 today).0
    ≡ err value_error
unfolding send_license_expiration_reminders process_enterprise_customer expiring process_batch
    bulk_update
no_uuid = refl
