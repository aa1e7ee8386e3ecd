-- ===== src/Provisioning/Tests.antt =====
-- Runs of the provisioning code, and its theorems at concrete inputs.
use license_manager.Base.{ℕ, ◌≡◌, refl, some, none, [], ◌∷◌, All, length, List, arith, true}
use license_manager.Models.{Plan}
use license_manager.Store.{World, ok, err, plan_locked}
use license_manager.Samples.{world, open_plan, capped_plan}
use license_manager.Provisioning.{
  acquired_lock, acquire_subscription_plan_lock, batch_counts, chunks, provision_licenses_task,
}
use license_manager.Provisioning.Lock.{
  System, IsStart, Calls, Halves, idle, holding, here, next, acquired, passed, now_in, later,
  with_lock, one_holder, two_holders,
}
use license_manager.Provisioning.Batches.{concat, FitsIn, chunks_whole}
use license_manager.Provisioning.Whole.{
  IsProvisioned, provision_licenses_task_whole, provision_licenses_task_locked,
}

batches_of_650 : batch_counts 650 300 ≡ 300 ∷ 300 ∷ 50 ∷ []
unfolding batch_counts
batches_of_650 = refl

abbrev three : List ℕ
three = 7 ∷ 8 ∷ 9 ∷ []

chunks_whole_example :
    (concat (chunks three 2) ≡ three) × All (λ chunk. FitsIn 2 (length chunk)) (chunks three 2)
chunks_whole_example = chunks_whole three 2 (ground arith)

-- The open plan is to have 7 licenses.
abbrev wanting_plan : Plan
wanting_plan = record open_plan { desired_num_licenses = some 7 }

abbrev wanting : World
wanting = record world { db = record world.db { plans = wanting_plan ∷ capped_plan ∷ [] } }

provision_licenses_task_whole_example :
    ((provision_licenses_task 1 wanting).0 ≡ ok tt)
    × IsProvisioned 1 wanting_plan wanting (provision_licenses_task 1 wanting).1
provision_licenses_task_whole_example =
    provision_licenses_task_whole 1 wanting_plan wanting refl refl

abbrev locked : World
locked = record wanting { locks = acquired_lock 1 none 1900 ∷ [] }

provision_licenses_task_locked_example :
    provision_licenses_task 1 locked ≡ (err plan_locked, locked)
provision_licenses_task_locked_example =
    provision_licenses_task_locked 1 wanting_plan locked refl refl

abbrev quiet : System
quiet = record { world = world; phase = λ t. idle }

quiet-IsStart : IsStart 1 quiet
quiet-IsStart = record { free = refl; none_holds = λ t. refl }

-- The system in which client 3 holds the lock of the open plan, and the same a second later.
abbrev taken : System
taken = record { world = with_lock 1 none world; phase = now_in holding 3 (λ t. idle) }

abbrev still_taken : System
still_taken = record { world = later 300 1002000 taken.world; phase = taken.phase }

abbrev client : ℕ
client = 3

to_taken : Calls 300 1 quiet taken
unfolding acquire_subscription_plan_lock
to_taken = next here (acquired 3 none (with_lock 1 none world) refl refl refl)

one_holder_example : client ≡ client
unfolding acquire_subscription_plan_lock
one_holder_example =
    one_holder 300 1 quiet still_taken client client quiet-IsStart
      (next (next here (acquired 3 none (with_lock 1 none world) refl refl refl))
        (passed 1002000 (ground arith) refl))
      ((tt, tt), λ t h. refl) (ground arith) (ground arith)

-- The lock of client 3 has run out, and client 4 takes it: without the condition on time, both hold it.
abbrev run_out : System
run_out = record { world = later 300 300002000 taken.world; phase = taken.phase }

abbrev taken_again : System
taken_again = record {
  world = with_lock 1 none run_out.world;
  phase = now_in holding 4 run_out.phase;
}

both_hold_after_timeout :
    Calls 300 1 quiet taken_again
    × (taken_again.phase 3 ≡ holding)
    × (taken_again.phase 4 ≡ holding)
unfolding acquire_subscription_plan_lock
both_hold_after_timeout = (
  next (next to_taken (passed 300002000 (ground arith) refl))
      (acquired 4 none taken_again.world refl refl refl),
  refl,
  refl,
)

two_holders_example :
    (acquire_subscription_plan_lock 1 none world ≡ (ok true, with_lock 1 none world))
    × ((s : System) × Halves 1 quiet s × (s.phase 3 ≡ holding) × (s.phase 4 ≡ holding))
two_holders_example = two_holders 1 none quiet 3 4 quiet-IsStart (ground arith)
