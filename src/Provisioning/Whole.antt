-- ===== src/Provisioning/Whole.antt =====
-- What `provision_licenses_task` leaves: the number of licenses of every plan, and the lock.
use license_manager.Base.{
  ℕ, ◌+◌, ◌-◌, ◌≡◌, refl, true, false, none, some, not, List, [], ◌∷◌, arith, max, exists, select,
  ◌==◌, if◌then◌else◌, Bool-cases, inl, inr, leb,
}
use mathlib.Core.Path.{subst}
use license_manager.Base.Table.{find, key-find}
use license_manager.Models.{Plan, plan_keyed, num_licenses, unrevoked_in}
use license_manager.Store.{World, PlanLock, is_lock_of, ok, err, plan_locked, get_plan}
use license_manager.Store.Counts.{grown, increase_num_licenses_lem, count-grown}
use license_manager.Provisioning.{
  batch_counts, create_batches, provision_body, provision_licenses_task, desired,
  subscription_plan_semaphore, acquired_lock, acquire_subscription_plan_lock,
  release_subscription_plan_lock, provision_licenses_batch_size,
}
use license_manager.Provisioning.Batches.{sum, batch_counts_whole}

-- What creating batches leaves alone, and how it moves the numbers of licenses.
pub record HasGrown (plan n : ℕ) (w w' : World) : Type 0 where
  pub counts :
      (q : ℕ)
      → num_licenses q w'.licenses ≡ num_licenses q w.licenses + (if plan == q then n else 0)
  pub plans : w'.plans ≡ w.plans
  pub locks : w'.locks ≡ w.locks
  pub tasks : w'.tasks ≡ w.tasks

pub grown-HasGrown : (plan n : ℕ) (w : World) → HasGrown plan n w (grown plan n w)
unfolding num_licenses
grown-HasGrown plan n w = record {
  counts =
      λ q. ground (arith, count-grown (unrevoked_in q) (plan == q) plan n w (λ u. ground arith));
  plans = refl;
  locks = refl;
  tasks = refl;
}

batches_world : ℕ → List ℕ → World → World
batches_world plan [] w = w
batches_world plan (n ∷ rest) w = batches_world plan rest (grown plan n w)

create_batches_lem :
    (plan : ℕ) (batches : List ℕ) (w : World)
    → create_batches plan batches w ≡ (ok tt, batches_world plan batches w)
unfolding create_batches batches_world
create_batches_lem plan [] w = refl
create_batches_lem plan (n ∷ rest) w =
    ground
      (arith, increase_num_licenses_lem plan n w, create_batches_lem plan rest (grown plan n w))

batches_world-HasGrown :
    (plan : ℕ) (batches : List ℕ) (w : World)
    → HasGrown plan (sum batches) w (batches_world plan batches w)
unfolding batches_world
batches_world-HasGrown plan [] w = record {
  counts = λ q. ground arith;
  plans = refl;
  locks = refl;
  tasks = refl;
}
batches_world-HasGrown plan (n ∷ rest) w =
    let one = grown-HasGrown plan n w in
    let more = batches_world-HasGrown plan rest (grown plan n w) in
    record {
      counts = λ q. ground (arith, one.counts q, more.counts q);
      plans = more.plans;
      locks = more.locks;
      tasks = more.tasks;
    }

provision_body_lem :
    (plan : ℕ) (p : Plan) (w : World)
    → find plan w.plans ≡ some p
    → (w' : World) × (provision_body plan w ≡ (ok tt, w'))
      × HasGrown plan (desired p - num_licenses plan w.licenses) w w'
unfolding provision_body get_plan
provision_body_lem plan p w e =
    let gap = desired p - num_licenses plan w.licenses in
    let batches = batch_counts gap provision_licenses_batch_size in
    elim (Bool-cases (leb (desired p) (num_licenses plan w.licenses))) [
      | inl done ↦ (
        w,
        ground (arith, key-find plan w.plans e),
        record { counts = λ q. ground arith; plans = refl; locks = refl; tasks = refl },
      )
      | inr lacking ↦ (
        batches_world plan batches w,
        ground (arith, key-find plan w.plans e, create_batches_lem plan batches w),
        subst (λ n. HasGrown plan n w (batches_world plan batches w))
            (batch_counts_whole gap provision_licenses_batch_size (omega arith)).0
            (batches_world-HasGrown plan batches w),
      )
    ]

pub release_all :
    (plan : ℕ) (locks : List PlanLock)
    → exists (is_lock_of plan) locks ≡ false
    → select (λ l. not (is_lock_of plan l)) locks ≡ locks
release_all plan [] h = refl
release_all plan (x ∷ locks) h = ground (arith, release_all plan locks)

-- What the task leaves of a plan's number of licenses.
abbrev pub IsProvisioned : ℕ → Plan → World → World → Type 0
IsProvisioned plan p w w' =
    ((q : ℕ)
      → num_licenses q w'.licenses ≡ (
          if plan == q
          then max (num_licenses plan w.licenses) (desired p)
          else num_licenses q w.licenses))
    × (w'.plans ≡ w.plans)
    × (w'.locks ≡ w.locks)

-- The task on a plan that exists, whose lock is free: it returns normally, brings the plan's number
-- of licenses up to the desired number and never lowers it, leaves the number of every other plan,
-- every plan and the set of locks as they were. So its own lock is released.
pub provision_licenses_task_whole :
    (plan : ℕ) (p : Plan) (w : World)
    → find plan w.plans ≡ some p
    → exists (is_lock_of plan) w.locks ≡ false
    → ((provision_licenses_task plan w).0 ≡ ok tt)
      × IsProvisioned plan p w (provision_licenses_task plan w).1
unfolding provision_licenses_task subscription_plan_semaphore acquire_subscription_plan_lock
    release_subscription_plan_lock get_plan
provision_licenses_task_whole plan p w e free =
    let locked = record w { locks = acquired_lock plan none w.now ∷ w.locks } in
    let (w', run, grew) = provision_body_lem plan p locked e in
    let key = key-find plan w.plans e in
    let task_eq : provision_licenses_task plan w ≡ (ok tt, record w' { locks = w.locks }) =
      ground (arith, release_all plan w.locks, grew.locks) in
    rw task_eq (refl, (λ q. ground (arith, grew.counts q), grew.plans, refl))

-- The task on a plan whose lock is taken is put off, and changes nothing.
pub provision_licenses_task_locked :
    (plan : ℕ) (p : Plan) (w : World)
    → find plan w.plans ≡ some p
    → exists (is_lock_of plan) w.locks ≡ true
    → provision_licenses_task plan w ≡ (err plan_locked, w)
unfolding provision_licenses_task subscription_plan_semaphore acquire_subscription_plan_lock
    get_plan
provision_licenses_task_locked plan p w e taken = ground (arith, key-find plan w.plans e)
