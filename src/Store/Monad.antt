-- ===== src/Store/Monad.antt =====
-- The world of the application, and code that reads it, changes it and may raise. What was written
-- before a raise stays written, so the world comes back beside the error; `atomic` is
-- `transaction.atomic()`, which takes the database back and leaves what was sent.
use license_manager.Base.{
  ℕ, ◌+◌, Bool, true, false, Option, none, some, List, [], ◌∷◌, ◌++◌, ◌==◌, if◌then◌else◌,
}
use license_manager.Base.Table.{upsert}
use license_manager.Models.{
  License, Plan, Agreement, Renewal, LicenseAction, LicenseSource, LicenseEvent, Notification,
  NotificationType, EventName, license_keyed,
}

-- The exceptions of exceptions.py and of Django that the modelled code raises.
pub data Error : Type 0 where
  revocation_limit_reached status_not_revocable license_not_found validation_error : Error
  does_not_exist renewal_processing_error activation_missing license_is_revoked : Error
  freeze_not_supported type_error api_error plan_locked database_error : Error
  command_failed value_error braze_error key_error : Error

pub data Result (A : Type 0) : Type 0 where
  ok : A → Result A
  err : Error → Result A

pub record Event : Type 0 where
  pub name : EventName
  pub user : Option ℕ
  pub license : Option ℕ

-- A Celery task that was queued by `delay` or `apply_async`, or that a command runs in place, or a
-- message that a command sent through Braze, with the arguments that matter.
pub data Task : Type 0 where
  provision_licenses_task revocation_cap_email utilization_threshold_email : (plan : ℕ) → Task
  revoke_course_enrollments : (user : Option ℕ) (enterprise : ℕ) → Task
  auto_applied_license_email post_activation_email : (enterprise : ℕ) (email : Option ℕ) → Task
  link_learners create_braze_aliases : (emails : List ℕ) → Task
  assignment_email : (emails : List ℕ) (plan : ℕ) → Task
  reminder_email : (emails : List (Option ℕ)) (plan : ℕ) → Task
  track_changes : (licenses : List ℕ) (name : EventName) → Task
  revoke_all_licenses : (plan : ℕ) → Task
  license_expiration : (licenses : List ℕ) (ignore_modified_after : Option ℕ) → Task
  unlink_users : (enterprise : ℕ) (user_emails : List (Option ℕ)) → Task
  expiration_reminder_message plan_expiration_message : (emails : List (Option ℕ)) → Task
  initial_utilization_email : (plan : ℕ) → Task
  utilization_message : (type : NotificationType) (plan : ℕ) (users : List ℕ) → Task

pub record Database : Type 0 where
  pub licenses : List License
  pub plans : List Plan
  pub agreements : List Agreement
  pub renewals : List Renewal
  pub actions : List LicenseAction
  pub sources : List LicenseSource
  pub license_events : List LicenseEvent
  pub notifications : List Notification

-- The entry of a plan's lock in the cache: when it was set, and for how many seconds, where none is the
-- default of the cache.
pub record PlanLock : Type 0 where
  pub subscription_plan : ℕ
  pub since : ℕ
  pub django_cache_timeout : Option ℕ

abbrev pub is_lock_of : ℕ → PlanLock → Bool
is_lock_of plan l = l.subscription_plan == plan

pub record World : Type 0 where
  pub db : Database
  pub open db use *
  pub events : List Event
  pub tasks : List Task
  -- the locks that are in the cache and have not run out
  pub locks : List PlanLock
  -- `uuid4()`: every number from this one on is unused
  pub next_uuid : ℕ
  pub now : ℕ

abbrev pub Action : Type 0 → Type 0
Action A = World → Result A × World

module _ {A : Type 0} where
  abbrev pub pure : A → Action A
  pure a w = (ok a, w)

  abbrev pub raise : Error → Action A
  raise e w = (err e, w)

  abbrev pub gets : (World → A) → Action A
  gets f w = (ok (f w), w)

  abbrev pub or_raise : Option A → Error → Action A
  or_raise none e = raise e
  or_raise (some a) e = pure a

infixl 5 ◌>>=◌ ◌>>◌
abbrev pub ◌>>=◌ : {A B : Type 0} → Action A → (A → Action B) → Action B
◌>>=◌ m f w = let (r, w') = m w in elim r [ ok a ↦ f a w' | err e ↦ (err e, w') ]

abbrev pub ◌>>◌ : {A B : Type 0} → Action A → Action B → Action B
m >> n = m >>= λ _. n

abbrev pub modify : (World → World) → Action Unit
modify f w = (ok tt, f w)

abbrev pub modify_db : (Database → Database) → Action Unit
modify_db f w = (ok tt, record w { db = f w.db })

abbrev pub raise_if : Bool → Error → Action Unit
raise_if c e w = (if c then err e else ok tt, w)

abbrev pub when : Bool → Action Unit → Action Unit
when true m = m
when false m = pure tt

-- `with transaction.atomic():`
abbrev pub atomic : {A : Type 0} → Action A → Action A
atomic m w =
    let (r, w') = m w in elim r [ ok a ↦ (ok a, w') | err e ↦ (err e, record w' { db = w.db }) ]

abbrev pub emit : Event → Action Unit
emit e w = (ok tt, record w { events = w.events ++ e ∷ [] })

-- `task.delay(...)`
abbrev pub delay : Task → Action Unit
delay t w = (ok tt, record w { tasks = w.tasks ++ t ∷ [] })

abbrev pub take_uuids : ℕ → Action ℕ
take_uuids n w = (ok w.next_uuid, record w { next_uuid = w.next_uuid + n })

-- The write of a license row, with no check.
abbrev pub put_license : License → Action Unit
put_license l = modify_db (λ db. record db { licenses = upsert l db.licenses })
