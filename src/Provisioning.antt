-- ===== src/Provisioning.antt =====
-- Creating the licenses that a plan still lacks: `provision_licenses`, `chunks` and `batch_counts` of
-- subscriptions/utils.py, the task and its semaphore of subscriptions/tasks.py, and the lock of
-- api/utils.py. Each of these runs at one instant, so that a lock does not run out under it; time that
-- passes between calls is in Provisioning/Lock.
pub mod Batches
pub mod Whole
pub mod Lock
mod Tests
use license_manager.Base.{
  ℕ, zero, suc, ◌+◌, ◌-◌, ◌/◌, ◌%◌, Bool, true, false, not, ◌||◌, Option, none, some, List, [], ◌∷◌,
  ◌++◌, exists, select, length, take, drop, map, is_some, ltb, leb, ◌==◌, if◌then◌else◌,
}
use license_manager.Models.{Plan, num_licenses}
use license_manager.Store.{
  Action, World, PlanLock, is_lock_of, Result, ok, err, pure, raise, gets, modify, delay, get_plan,
  increase_num_licenses, Task, plan_locked, ◌>>=◌, ◌>>◌,
}

-- PROVISION_LICENSES_BATCH_SIZE
abbrev pub provision_licenses_batch_size : ℕ
provision_licenses_batch_size = 300

-- `for _ in range(n): yield size`
abbrev pub repeated : ℕ → ℕ → List ℕ
repeated zero size = []
repeated (suc n) size = size ∷ repeated n size

unfoldable pub batch_counts : ℕ → ℕ → List ℕ
batch_counts total_count batch_size =
    let last_batch_count = total_count % batch_size in
    repeated (total_count / batch_size) batch_size
    ++ (if ltb 0 last_batch_count then last_batch_count ∷ [] else [])

-- `range(start, stop, step)`, which has at most `stop - start` members
abbrev pub range : ℕ → ℕ → ℕ → ℕ → List ℕ
range zero start stop step = []
range (suc fuel) start stop step =
    let rest = range fuel (start + step) stop step in if ltb start stop then start ∷ rest else []

unfoldable pub chunks : {A : Type 0} → List A → ℕ → List (List A)
chunks a_list chunk_size =
    map (λ i. take chunk_size (drop i a_list)) (range (length a_list) 0 (length a_list) chunk_size)

abbrev pub acquired_lock : ℕ → Option ℕ → ℕ → PlanLock
acquired_lock plan timeout now = record {
  subscription_plan = plan;
  since = now;
  django_cache_timeout = timeout;
}

-- Reading and setting the cache are two steps of the code; here nothing comes between them.
unfoldable pub acquire_subscription_plan_lock : ℕ → Option ℕ → Action Bool
acquire_subscription_plan_lock plan timeout = do
  found ← gets (λ w. exists (is_lock_of plan) w.locks)
  if found
      then pure false
      else (modify (λ w. record w { locks = acquired_lock plan timeout w.now ∷ w.locks })
          >> pure true)

unfoldable pub release_subscription_plan_lock : ℕ → Action Unit
release_subscription_plan_lock plan =
    modify (λ w. record w { locks = select (λ l. not (is_lock_of plan l)) w.locks })

-- `try: ... finally: ...`, for a cleanup that does not raise
abbrev pub finally : {A : Type 0} → Action A → Action Unit → Action A
finally m cleanup w = let (r, w') = m w in (r, (cleanup w').1)

-- The task is retried later when the plan is locked; `plan_locked` stands for the retry.
unfoldable pub subscription_plan_semaphore : (ℕ → Action Unit) → ℕ → Action Unit
unfolding acquire_subscription_plan_lock release_subscription_plan_lock
subscription_plan_semaphore task plan = do
  subscription_plan ← get_plan plan
  acquired ← acquire_subscription_plan_lock subscription_plan.uuid none
  if acquired
      then finally (task plan) (release_subscription_plan_lock subscription_plan.uuid)
      else raise plan_locked

unfoldable pub create_batches : ℕ → List ℕ → Action Unit
create_batches plan [] = pure tt
create_batches plan (n ∷ rest) = increase_num_licenses plan n >> create_batches plan rest

-- A number that is null or zero is false.
abbrev pub desired : Plan → ℕ
desired p = elim p.desired_num_licenses [ none ↦ 0 | some n ↦ n ]

-- The body of `provision_licenses_task`
unfoldable pub provision_body : ℕ → Action Unit
unfolding get_plan
provision_body plan = do
  subscription_plan ← get_plan plan
  current ← gets (λ w. num_licenses subscription_plan.uuid w.licenses)
  let gap = desired subscription_plan - current
  if desired subscription_plan == 0
      then pure tt
      else if leb (desired subscription_plan) current
      then pure tt
      else create_batches subscription_plan.uuid (batch_counts gap provision_licenses_batch_size)

unfoldable pub provision_licenses_task : ℕ → Action Unit
provision_licenses_task = subscription_plan_semaphore provision_body

-- `provision_licenses(subscription)`: one batch at once, more of them in the task.
unfoldable pub provision_licenses : Plan → Action Unit
provision_licenses subscription = do
  current ← gets (λ w. num_licenses subscription.uuid w.licenses)
  let gap = desired subscription - current
  if desired subscription == 0 || is_some subscription.last_freeze_timestamp
      then pure tt
      else if not (ltb 0 gap)
      then pure tt
      else if leb gap provision_licenses_batch_size
      then increase_num_licenses subscription.uuid gap
      else delay (Task.provision_licenses_task subscription.uuid)
