-- ===== src/Revocation/Views.antt =====
-- The admin's endpoints `bulk_revoke` and `revoke_all` with `_revoke_by_email_and_plan`
-- (license_manager/apps/api/v1/views.py). The payload's `filters` are given by what they select.
pub mod Kept
use license_manager.Base.{
  ℕ, ◌+◌, Bool, true, false, not, ◌&&◌, Option, none, some, List, [], ◌∷◌, select, same, length,
  map, leb, ◌==◌, if◌then◌else◌, first, order_by,
}
use license_manager.Base.Table.{find}
use license_manager.Base.Integer.{ℤ, pos, ltb_ℤ}
use license_manager.Models.{
  License, Plan, is_assigned, is_revoked, in_plan, revocable_in, num_revocations_remaining, admin,
  admin_api, admin_api_bulk, plan_keyed,
}
use license_manager.Store.{
  World, Action, Result, ok, err, Error, pure, gets, ◌>>=◌, ◌>>◌, atomic, or_raise, take_uuids,
  delay, revocation_limit_reached, status_not_revocable, license_not_found, does_not_exist,
  revoke_all_licenses,
}
use license_manager.Revocation.{Revocation, revoke_license, Actor, follow_up_each}

abbrev by_uuid : License → License → Bool
by_uuid a b = leb a.uuid b.uuid

-- The choice among the revocable licenses of an email: the only one, else the first assigned one,
-- else the first one.
pub pick_license : List License → Option License
pick_license [] = none
pick_license (l ∷ []) = some l
pick_license (l ∷ m ∷ rest) = elim (first (λ (x : License). is_assigned x.status) (l ∷ m ∷ rest)) [
  | some a ↦ some a
  | none ↦ some l
]

abbrev pub revocable_by_email : Option ℕ → ℕ → License → Bool
revocable_by_email user_email plan l = same l.user_email user_email && revocable_in plan l

pub revoke_by_email_and_plan : Option ℕ → ℕ → Action Revocation
revoke_by_email_and_plan user_email plan = do
  user_licenses ←
      gets (λ w. order_by by_uuid (select (revocable_by_email user_email plan) w.licenses))
  user_license ← or_raise (pick_license user_licenses) license_not_found
  revoke_license user_license

-- One entry of the response: a revocation, an error about an email, or an error about the request.
pub data Attempt : Type 0 where
  succeeded : Option ℕ → Revocation → Attempt
  failed : Option ℕ → Error → Attempt
  refused : Error → Attempt

-- `except (LicenseNotFoundError, LicenseRevocationError)`
abbrev pub is_caught : Error → Bool
is_caught license_not_found = true
is_caught revocation_limit_reached = true
is_caught status_not_revocable = true
is_caught _ = false

-- `get_http_status_for_exception`
pub http_status : Error → ℕ
http_status license_not_found = 404
http_status revocation_limit_reached = 400
http_status status_not_revocable = 400
http_status _ = 500

-- The body of the `try` in the loop of `bulk_revoke` with its handler.
abbrev attempt_of : Option ℕ → Result Revocation × World → Result Attempt × World
attempt_of user_email (ok result, w) = (ok (succeeded user_email result), w)
attempt_of user_email (err e, w) = (if is_caught e then ok (failed user_email e) else err e, w)

try_revoke : ℕ → Option ℕ → Action Attempt
try_revoke plan user_email w = attempt_of user_email (revoke_by_email_and_plan user_email plan w)

revoke_emails : ℕ → List (Option ℕ) → Action (List Attempt)
revoke_emails plan [] = pure []
revoke_emails plan (user_email ∷ rest) = do
  attempt ← try_revoke plan user_email
  attempts ← revoke_emails plan rest
  pure (attempt ∷ attempts)

abbrev pub is_success : Attempt → Bool
is_success (succeeded _ _) = true
is_success _ = false

abbrev pub revocations : List Attempt → List Revocation
revocations [] = []
revocations (succeeded _ r ∷ rest) = r ∷ revocations rest
revocations (_ ∷ rest) = revocations rest

-- `error_response_status`: that of the last error; `none` if there was none.
abbrev pub last_status : List Attempt → Option ℕ
unfolding http_status
last_status [] = none
last_status (a ∷ rest) =
    let later = last_status rest in
    elim later [ some s ↦ some s | none ↦ elim a [ failed _ e ↦ some (http_status e) | _ ↦ none ] ]

pub record BulkRequest : Type 0 where
  pub user_emails : List ℕ
  pub filters : License → Bool
  pub user : ℕ

pub record BulkResponse : Type 0 where
  pub status : ℕ
  pub successful : List Attempt
  pub unsuccessful : List Attempt

-- The emails of the payload, or else those of the licenses that its filters select.
abbrev pub requested_emails : BulkRequest → ℕ → List License → List (Option ℕ)
requested_emails request plan licenses = elim request.user_emails [
  | [] ↦
      map (λ (l : License). l.user_email)
        (select (λ l. (in_plan plan l && request.filters l) && not (is_revoked l.status)) licenses)
  | _ ∷ _ ↦ map some request.user_emails
]

abbrev pub exceeds : ℕ → Option ℤ → Bool
exceeds n none = false
exceeds n (some remaining) = ltb_ℤ remaining (pos n)

-- The response once every email was tried.
abbrev pub bulk_response : List Attempt → BulkResponse
bulk_response attempts =
    let errors = select (λ a. not (is_success a)) attempts in
    record {
      status = elim errors [ [] ↦ 200 | _ ∷ _ ↦ 207 ];
      successful = select is_success attempts;
      unsuccessful = errors;
    }

-- The part of `bulk_revoke` after the emails were tried.
conclude : Actor → List Attempt → Action BulkResponse
conclude actor attempts = elim (revocations attempts) [
  | [] ↦ elim (last_status attempts) [
    | some s ↦ pure (record { status = s; successful = []; unsuccessful = attempts })
    | none ↦ pure (bulk_response attempts)
  ]
  | r ∷ rs ↦ follow_up_each actor (r ∷ rs) >> pure (bulk_response attempts)
]

abbrev refusal : ℕ → Error → BulkResponse
refusal status e = record { status = status; successful = []; unsuccessful = refused e ∷ [] }

abbrev bulk_actor : ℕ → ℕ → Actor
bulk_actor user correlation_id = record {
  actor_type = admin;
  lms_user_id = some user;
  source = admin_api_bulk;
  correlation_id = some correlation_id;
}

-- The part of `bulk_revoke` once the plan was found.
bulk_revoke_in : BulkRequest → Plan → Action BulkResponse
bulk_revoke_in request plan = do
  user_emails ← gets (λ w. requested_emails request plan.uuid w.licenses)
  remaining ← gets (λ w. num_revocations_remaining plan w.licenses)
  if exceeds (length user_emails) remaining then pure (refusal 400 revocation_limit_reached) else do
    correlation_id ← take_uuids 1
    attempts ← atomic (revoke_emails plan.uuid user_emails)
    conclude (bulk_actor request.user correlation_id) attempts

pub bulk_revoke : BulkRequest → ℕ → Action BulkResponse
bulk_revoke request subscription_uuid = do
  found ← gets (λ w. find subscription_uuid w.plans)
  elim found [ none ↦ pure (refusal 404 does_not_exist) | some plan ↦ bulk_revoke_in request plan ]

-- `revoke_all`: the status of the response; the work is left to `revoke_all_licenses_task`.
pub revoke_all : ℕ → Action ℕ
revoke_all subscription_uuid = do
  found ← gets (λ w. find subscription_uuid w.plans)
  elim found [
    | none ↦ pure 404
    | some plan ↦
        if plan.is_revocation_cap_enabled
        then pure 422
        else (delay (revoke_all_licenses subscription_uuid) >> pure 204)
  ]
