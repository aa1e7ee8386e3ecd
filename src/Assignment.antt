-- ===== src/Assignment.antt =====
-- Assigning licenses of a plan to emails: `assign` of `LicenseAdminViewSet` and its helpers
-- (api/v1/views.py). An email is a number that stands for its lower-case form, a salesforce id that
-- is null or blank is none. Python gives the emails of a request without salesforce ids in the
-- arbitrary order of a set; here it is the order of the request. The serializer's checks of a single
-- email or salesforce id, its form and its length, hold here. Writing the audit rows does not fail.
pub mod Counted
pub mod Written
pub mod Outcome
mod Tests
use license_manager.Base.{
  ℕ, ◌+◌, Bool, true, false, not, ◌&&◌, Option, none, some, List, [], ◌∷◌, ◌++◌, exists, select,
  count, length, take, map, is_some, same, ltb, ◌==◌, if◌then◌else◌,
}
use license_manager.Base.Table.{Keyed, find, upsert}
use license_manager.Models.{
  License, Plan, LicenseAction, LicenseSource, assigned, in_plan, unassigned_in, revocable_in,
  license_assigned, ActorType, ActionSource, ActionType, Metadata,
}
use license_manager.Store.{
  Action, World, Result, ok, err, Error, pure, raise, gets, raise_if, when, modify_db, delay,
  atomic, take_uuids, get_plan, get_agreement, bulk_update, database_error, Task, link_learners,
  create_braze_aliases, assignment_email, track_changes, ◌>>=◌, ◌>>◌,
}
use license_manager.Provisioning.{
  acquire_subscription_plan_lock, release_subscription_plan_lock, finally, chunks,
}

-- An email of the request with its salesforce id.
pub record Entry : Type 0 where
  pub email : ℕ
  pub sfid : Option ℕ

instance abbrev pub entry_keyed : Keyed Entry
entry_keyed = record { key = λ e. e.email }

pub record AssignRequest : Type 0 where
  pub user_emails : List ℕ
  pub user_sfids : Option (List (Option ℕ))
  pub notify_users : Bool
  pub user : ℕ

-- `dict(pairs)`: a key keeps its first place and takes its last value.
unfoldable pub dict_from : List Entry → List Entry → List Entry
dict_from d [] = d
dict_from d (e ∷ rest) = dict_from (upsert e d) rest

abbrev pub zip_entries : List ℕ → List (Option ℕ) → List Entry
zip_entries [] ss = []
zip_entries (e ∷ es) [] = []
zip_entries (e ∷ es) (s ∷ ss) = record { email = e; sfid = s } ∷ zip_entries es ss

-- The emails of the request as it has them, with their salesforce ids
abbrev pub entries_in : AssignRequest → List Entry
entries_in req = elim req.user_sfids [
  | none ↦ map (λ e. record { email = e; sfid = none }) req.user_emails
  | some ss ↦ zip_entries req.user_emails ss
]

-- The emails that are asked for, each one once.
unfoldable pub requested_entries : AssignRequest → List Entry
requested_entries req = dict_from [] (entries_in req)

abbrev pub emails_of : List Entry → List ℕ
emails_of = map (λ e. e.email)

-- `sfids.get(user_email)`
abbrev pub sfid_of : List Entry → Option ℕ → Option ℕ
sfid_of entries none = none
sfid_of entries (some email) = elim (find email entries) [ none ↦ none | some e ↦ e.sfid ]

abbrev pub taken_by : ℕ → ℕ → License → Bool
taken_by plan email l = revocable_in plan l && same l.user_email (some email)

-- `list.remove`, and nothing where the email is not in the list
abbrev pub remove : ℕ → List ℕ → List ℕ
remove email [] = []
remove email (e ∷ es) = let rest = remove email es in if e == email then es else e ∷ rest

abbrev pub remove_each : List License → List ℕ → List ℕ
remove_each [] emails = emails
remove_each (l ∷ ls) emails =
    remove_each ls (elim l.user_email [ none ↦ emails | some e ↦ remove e emails ])

abbrev pub already_associated : ℕ → List ℕ → World → List License
already_associated plan emails w =
    select (λ l. exists (λ e. same l.user_email (some e)) emails && revocable_in plan l) w.licenses

-- `_trim_already_associated_emails`
unfoldable pub trim_already_associated_emails : ℕ → List ℕ → World → List ℕ
trim_already_associated_emails plan emails w = remove_each (already_associated plan emails w) emails

abbrev pub assigned_to : ℕ → ℕ → ℕ → License → License
assigned_to now key email l = record l {
  user_email = some email;
  status = assigned;
  activation_key = some key;
  assigned_date = some now;
  last_remind_date = some now;
}

-- `zip(licenses, user_emails)`
unfoldable pub assigned_rows : ℕ → ℕ → List License → List ℕ → List License
assigned_rows now key [] es = []
assigned_rows now key (l ∷ ls) [] = l ∷ ls
assigned_rows now key (l ∷ ls) (e ∷ es) =
    assigned_to now key e l ∷ assigned_rows now (key + 1) ls es

-- `_assign_new_licenses`
unfoldable pub assign_new_licenses : ℕ → List ℕ → Action (List License)
assign_new_licenses plan emails = do
  licenses ← gets (λ w. take (length emails) (select (unassigned_in plan) w.licenses))
  now ← gets (λ w. w.now)
  key ← take_uuids (length licenses)
  let rows = assigned_rows now key licenses emails
  bulk_update rows
  pure rows

abbrev pub new_sources : List Entry → List License → List LicenseSource
new_sources entries [] = []
new_sources entries (l ∷ ls) =
    let rest = new_sources entries ls in
    elim (sfid_of entries l.user_email) [
      | none ↦ rest
      | some s ↦ record { license = l.uuid; source_id = s } ∷ rest
    ]

-- `_set_source_for_assigned_licenses`; a license has at most one source
unfoldable pub set_source_for_assigned_licenses : List Entry → List License → Action Unit
set_source_for_assigned_licenses entries ls = do
  let rows = new_sources entries ls
  taken ← gets (λ w. exists (λ s. exists (λ old. old.license == s.license) w.sources) rows)
  raise_if taken database_error
  modify_db (λ db. record db { sources = db.sources ++ rows })

-- The transaction of `_assign`; none where too few licenses are available.
unfoldable pub assign_emails : ℕ → List Entry → List ℕ → Action (Option (List License))
assign_emails plan sfids emails = atomic do
  available ← gets (λ w. count (unassigned_in plan) w.licenses)
  if ltb available (length emails) then pure none else do
    ls ← assign_new_licenses plan emails
    set_source_for_assigned_licenses sfids ls
    pure (some ls)

abbrev pub assignment_action :
    AssignRequest → List Entry → ℕ → ℕ → ℕ → ℕ → ℕ → License → LicenseAction
assignment_action req sfids plan enterprise c batch asked l = record {
  license = l.uuid;
  subscription_plan = plan;
  enterprise_customer_uuid = enterprise;
  action_type = ActionType.assigned_action;
  actor_type = ActorType.admin;
  actor_lms_user_id = some req.user;
  learner_lms_user_id = l.lms_user_id;
  learner_email = l.user_email;
  learner_external_key = sfid_of sfids l.user_email;
  source = ActionSource.admin_api_bulk;
  correlation_id = some c;
  metadata = Metadata.of_assignment batch asked (sfid_of sfids l.user_email);
}

-- PENDING_ACCOUNT_CREATION_BATCH_SIZE
abbrev pub pending_account_creation_batch_size : ℕ
pending_account_creation_batch_size = 50

unfoldable pub notify_batches : Bool → ℕ → List (List ℕ) → Action Unit
notify_batches notify plan [] = pure tt
notify_batches notify plan (batch ∷ rest) = do
  delay (link_learners batch)
  when notify (delay (create_braze_aliases batch) >> delay (assignment_email batch plan))
  notify_batches notify plan rest

-- `_link_and_notify_assigned_emails`: each batch is one chain of tasks
unfoldable pub link_and_notify_assigned_emails : List ℕ → ℕ → Bool → Bool → Action Unit
link_and_notify_assigned_emails emails plan notify_users disabled =
    notify_batches (notify_users && not disabled) plan
      (chunks emails pending_account_creation_batch_size)

-- What `_assign` does once the assignments are committed.
unfoldable pub after_assignment :
    AssignRequest → Plan → List Entry → List ℕ → List License → Action Unit
after_assignment req p sfids emails ls = do
  c ← take_uuids 1
  agreement ← get_agreement p.customer_agreement
  modify_db (λ db. record db {
    actions =
        db.actions
        ++ map
            (assignment_action req sfids p.uuid agreement.enterprise_customer_uuid c (length ls)
              (length emails))
            ls;
  })
  delay (track_changes (map (λ l. l.uuid) ls) license_assigned)
  link_and_notify_assigned_emails emails p.uuid req.notify_users
      agreement.disable_onboarding_notifications

-- The response: its status, and the body where it has one
pub record AssignResponse : Type 0 where
  pub status : ℕ
  pub num_successful_assignments : ℕ
  pub num_already_associated : ℕ
  pub license_assignments : List License

abbrev pub refusal : ℕ → AssignResponse
refusal status = record {
  status = status;
  num_successful_assignments = 0;
  num_already_associated = 0;
  license_assignments = [];
}

abbrev pub success : List ℕ → List License → List License → AssignResponse
success emails associated ls = record {
  status = 200;
  num_successful_assignments = length emails;
  num_already_associated = length associated;
  license_assignments = ls;
}

-- The part of `_assign` for emails that are not associated yet
unfoldable pub assign_missing :
    AssignRequest → Plan → List Entry → List ℕ → List License → Action AssignResponse
assign_missing req p sfids emails associated w =
    let (r, w') = assign_emails p.uuid sfids emails w in
    elim r [
      | ok none ↦ (ok (refusal 400), w')
      | ok (some ls) ↦
          (after_assignment req p sfids emails ls >> pure (success emails associated ls)) w'
      | err database_error ↦ (ok (refusal 422), w')
      | err e ↦ (err e, w')
    ]

-- The salesforce ids that the request came with
abbrev pub sfids_of : AssignRequest → List Entry
sfids_of req = elim req.user_sfids [ none ↦ [] | some ss ↦ requested_entries req ]

-- What the serializer of the request checks, beyond the type of each field: `_validate_data`
unfoldable pub is_valid_request : AssignRequest → Bool
is_valid_request req = not (length req.user_emails == 0) && elim req.user_sfids [
  | none ↦ true
  | some ss ↦ not (length ss == 0) && length req.user_emails == length ss
]

-- `_assign`; a ValidationError is answered with 400
unfoldable pub assign_unlocked : AssignRequest → Plan → Action AssignResponse
assign_unlocked req p = if not (is_valid_request req) then pure (refusal 400) else do
  let asked = emails_of (requested_entries req)
  associated ← gets (already_associated p.uuid asked)
  emails ← gets (trim_already_associated_emails p.uuid asked)
  if length emails == 0
      then pure (success emails associated [])
      else assign_missing req p (sfids_of req) emails associated

-- ASSIGNMENT_LOCK_TIMEOUT_SECONDS
abbrev pub assignment_lock_timeout_seconds : ℕ
assignment_lock_timeout_seconds = 300

-- `assign`
unfoldable pub assign : AssignRequest → ℕ → Action AssignResponse
assign req plan = do
  p ← get_plan plan
  lock_acquired ← acquire_subscription_plan_lock p.uuid (some assignment_lock_timeout_seconds)
  if not lock_acquired
      then pure (refusal 423)
      else finally (assign_unlocked req p) (release_subscription_plan_lock p.uuid)
