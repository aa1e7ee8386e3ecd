-- ===== src/Lib.antt =====
-- A model of edX license-manager, the service that keeps the licenses of enterprise customers, and what
-- can be proved about it.
--
-- A customer agreement has subscription plans, a plan has licenses, and a license is unassigned,
-- assigned to an email, activated or revoked. The parts of the program work on these rows:
-- * Models (license_manager/apps/subscriptions/models.py, constants.py): one record per table with the
--   source's fields, and the properties of a plan that count its licenses. A column that may be null is
--   an Option; uuids, emails, users and instants (in microseconds) are numbers. Models/Plans computes
--   the cap on revocations in IEEE doubles (Base/Float), as Python does.
-- * Store (models.py, event_utils.py): the world that the code reads and changes - tables, tracking
--   events, queued tasks, locks in the cache, the next unused uuid, the time - and `License.save`,
--   `revoke`, `bulk_create`, `bulk_update` and `increase_num_licenses` on it. An action takes a world and
--   returns a result or an error beside the world it leaves, so what was written before an error stays;
--   `atomic` takes the database back. A record that a function holds is a copy, as a Django object is,
--   and saving it writes its row. Store/Sound is the invariant of the database.
-- * Revocation (subscriptions/api.py `revoke_license`, api/tasks.py, api/v1/views.py `bulk_revoke` and
--   `revoke_all`): revoking a license under the plan's cap and replacing it by an unassigned one, one by
--   one, in bulk requests, and for a whole plan.
-- * Provisioning (subscriptions/utils.py, subscriptions/tasks.py, api/utils.py): creating the licenses
--   that a plan lacks, in batches, under the plan's lock, and the lock itself under interleaved clients
--   and with its timeout.
-- * Activation (models.py `license_for_activation`, api/v1/views.py `LicenseActivationView`): finding a
--   license by its key, resetting duplicates, activating the one that stays.
-- * Renewal (subscriptions/api.py `renew_subscription`, the command process_renewals): copying the
--   licenses of a plan into its successor, and handing over automatic application.
-- * Assignment (api/v1/views.py `assign`): giving unassigned licenses of a plan to the emails of a request
--   that have none, under the plan's lock.
-- * AutoApply (models.py `auto_applicable_subscription`, api/v1/views.py `auto_apply`): a learner takes an
--   unassigned license of the agreement's applicable plan.
-- * AutoScaling (the command process_auto_scalable_plans): current plans grow when few licenses are left.
-- * Freeze (subscriptions/api.py `delete_unused_licenses_post_freeze`): the unassigned licenses of a plan
--   are deleted, where the foreign key of their events admits it.
-- * Transfer (models.py `LicenseTransferJob.process`): licenses move from one plan to another.
-- * Retirement (the command retire_old_licenses, models.py `get_licenses_exceeding_purge_duration`,
--   api/v1/views.py `UserRetirementView`): the data of learners is removed from licenses, batch by batch.
-- * Expiration (the command expire_subscriptions, models.py `prior_renewals`): plans that expired are
--   marked, and the enrollments of their licenses and of the plans before them are ended.
-- * Forms (subscriptions/forms.py): the validation of the admin site's forms.
-- * Reminders (api/v1/views.py `remind` and `remind_all`, api/tasks.py `send_reminder_email_task`):
--   messages to the learners whose license waits for activation, in batches.
-- * Unlinking (the command unlink_expired_licenses, models.py `for_user_and_customer`): learners of licenses
--   that expired long ago are unlinked from their customer.
-- * Mailing (the commands send_license_expiration_reminders and send_subscription_plan_expiration_emails):
--   messages to the learners whose plan is about to end or has ended, in batches that are read one after the
--   other while the licenses are marked.
-- * RenewalAdmin (api/v1/views.py `SubscriptionPlanRenewalProvisioningAdminViewset`, api/serializers.py):
--   renewals are created, updated, deleted and processed through the API.
-- * Utilization (api/tasks.py, models.py `highest_utilization_threshold_reached`, the command
--   send_license_utilization_emails): emails to admins about how many licenses of a plan are taken, and the
--   notifications that keep them from being sent again.
-- Base has the shared helpers: Boolean tests, lists, tables of rows by key, integers, doubles. Samples has
-- the small database on which the tests of every part run.
--
-- Loops over rows are recursions on the list. Fuel is used where they are not: `range` in Provisioning
-- gets the length of the list, which is at least the number of its steps; the batches of Retirement and of
-- Mailing get the number of rows, of which each batch leaves fewer; the chains of Expiration get one more
-- than the number of renewals, of which each is met at most once where they form no cycle; and
-- `bit_length` in Base/Float gets 2200, more than the bits of any double that the program computes with.
--
-- Not modelled: the history tables; failures of the database beside the unique columns of renewals, sources
-- and titles of plans and the foreign key of license events, and of other services where a part does not say
-- what they raise; a lock that runs out in the middle of a task or a request, which are run at one instant
-- (Provisioning/Lock has time that passes between calls); Django's own validation of a field, what a
-- message to Braze says, the endpoints on plans and agreements for provisioning admins, and the parts of the
-- program that only format or send (most serializers, clients, the admin site).
pub mod Base
pub mod Models
pub mod Store
pub mod Samples
pub mod Revocation
pub mod Provisioning
pub mod Activation
pub mod Renewal
pub mod Assignment
pub mod AutoScaling
pub mod AutoApply
pub mod Freeze
pub mod Transfer
pub mod Retirement
pub mod Expiration
pub mod Forms
pub mod Reminders
pub mod Unlinking
pub mod Mailing
pub mod RenewalAdmin
pub mod Utilization
