-- ===== src/Reminders/Tests.antt =====
-- The theorem on reminders at a concrete input.
use license_manager.Base.{ℕ, ◌≡◌, ◌≤◌, refl, false, arith, count}
use license_manager.Store.{World, ok}
use license_manager.Store.Changed.{changed}
use license_manager.Samples.{world, open_plan}
use license_manager.Reminders.{assigned_in, reminded_at, remind_all, run_reminders}
use license_manager.Reminders.Whole.{waits_for, remind_all_whole}

one_each : (email : ℕ) → count (waits_for 1 email) world.licenses ≤ 1
one_each email = ground arith

remind_all_whole_example :
    (w1 : World) × (w2 : World) × (remind_all 1 world ≡ (ok 204, w1))
    × (run_reminders (λ m. false) w1.tasks w1 ≡ (ok tt, w2))
    × (w2.licenses ≡ changed (assigned_in 1) (reminded_at 2000) world.licenses)
remind_all_whole_example =
    remind_all_whole (λ m. false) 1 open_plan world (λ m. refl) refl refl (ground arith)
      (ground arith) one_each refl
