-- ===== src/Reminders/Emails.antt =====
-- The emails of reminders: sorting them, and queueing a task for each chunk.
use license_manager.Base.{
  ℕ, ◌≡◌, refl, Bool, false, not, Option, List, [], ◌∷◌, ◌++◌, arith, exists, map, order_by,
  is_some, exists-append,
}
use mathlib.Core.List.{append_assoc, append-nil}
use license_manager.Models.{license_keyed, plan_keyed}
use license_manager.Store.{World, ok, Task, reminder_email}
use license_manager.Provisioning.Batches.{concat}
use license_manager.Reminders.{sorted, send_reminders, le_email}

abbrev pub is_null : Option ℕ → Bool
is_null e = not (is_some e)

-- A chunk without a null can be sorted.
abbrev pub task_of : ℕ → List (Option ℕ) → Task
task_of plan c = reminder_email (order_by le_email c) plan

pub send_reminders_lem :
    (plan : ℕ) (cs : List (List (Option ℕ))) (w : World)
    → exists is_null (concat cs) ≡ false
    → send_reminders plan cs w ≡ (ok tt, record w { tasks = w.tasks ++ map (task_of plan) cs })
unfolding send_reminders sorted
send_reminders_lem plan [] w h = rw append-nil refl
send_reminders_lem plan (c ∷ cs) w h =
    let w' = record w { tasks = w.tasks ++ task_of plan c ∷ [] } in
    ground (
      arith,
      exists-append is_null c (concat cs),
      send_reminders_lem plan cs w',
      append_assoc w.tasks (task_of plan c ∷ []) (map (task_of plan) cs),
    )
