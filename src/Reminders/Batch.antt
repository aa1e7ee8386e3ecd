-- ===== src/Reminders/Batch.antt =====
-- What one reminder task writes.
use license_manager.Base.{
  ℕ, ◌≡◌, ◌≤◌, refl, sym, ap, ◌∙◌, Bool, false, ◌&&◌, some, Option, List, [], ◌∷◌, arith, All,
  All-order_by, All-map_imp, count, map, select, order_by, ◌==◌, length-order_by, length-select,
}
use license_manager.Base.Table.{find, upsert, key-find}
use license_manager.Base.Table.Keys.{
  DistinctKeys, IsLoaded, IsLoaded-saved, upsert-DistinctKeys, select-DistinctKeys, select-IsLoaded,
  order_by-DistinctKeys,
}
use license_manager.Base.Pages.{by_key, has_key, find-has_key, has_key-order_by, has_key-select}
use license_manager.Models.{License, Plan, license_keyed, plan_keyed}
use license_manager.Store.{World, ok, get_plan}
use license_manager.Store.Changed.{
  changed, changed-changed, changed_nothing, upsert-changed, All-intro, changed_same,
}
use license_manager.Renewal.Copies.{saved, with_rows, bulk_update_lem}
use license_manager.Reminders.{
  assigned_in, has_email_in, email_of, reminded_at, reminder_email_batch_size,
  batch_notify_or_remind, send_reminder_email_task,
}

-- Saving changed copies of rows that were read changes exactly those rows.
pub saved-changed :
    (f : License → License) (ls rows : List License)
    → ((l : License) → (f l).uuid ≡ l.uuid)
    → DistinctKeys rows
    → DistinctKeys ls
    → All (IsLoaded rows) ls
    → saved (map f ls) rows ≡ changed (λ l. has_key l.uuid ls) f rows
saved-changed f [] rows keeps d dl loaded = sym (changed_nothing f rows)
saved-changed f (l ∷ ls) rows keeps d dl loaded =
    let key = keeps l in
    saved-changed f ls (upsert (f l) rows) keeps (upsert-DistinctKeys (f l) rows d) dl.1
      (IsLoaded-saved (f l) rows ls (rw key dl.0) loaded.1)
    ∙ ap (changed (λ x. has_key x.uuid ls) f) (upsert-changed f l rows key d loaded.0)
    ∙ changed-changed (λ x. x.uuid == l.uuid) (λ x. has_key x.uuid ls)
        (λ x. has_key x.uuid (l ∷ ls)) f rows
        (All-intro rows (λ x. ground (arith, keeps x, find-has_key l.uuid ls dl.0)))

-- A license that a reminder to these emails is about
abbrev pub is_pending : ℕ → List (Option ℕ) → License → Bool
is_pending plan emails l = assigned_in plan l && has_email_in emails l

saved-pending :
    (plan now : ℕ) (emails : List (Option ℕ)) (rows : List License)
    → DistinctKeys rows
    → saved (map (reminded_at now) (order_by by_key (select (is_pending plan emails) rows))) rows
      ≡ changed (is_pending plan emails) (reminded_at now) rows
saved-pending plan now emails rows d =
    let found = select (is_pending plan emails) rows in
    saved-changed (reminded_at now) (order_by by_key found) rows (λ l. refl) d
      (order_by-DistinctKeys by_key found (select-DistinctKeys (is_pending plan emails) rows d))
      (All-order_by (IsLoaded rows) by_key found (select-IsLoaded (is_pending plan emails) rows d))
    ∙ changed_same (λ l. has_key l.uuid (order_by by_key found)) (is_pending plan emails)
        (reminded_at now) rows
        (All-map_imp (λ (l : License). has_key l.uuid found ≡ is_pending plan emails l)
          (λ (l : License). has_key l.uuid (order_by by_key found) ≡ is_pending plan emails l) rows
          (λ l e. has_key-order_by by_key l.uuid found ∙ e)
          (has_key-select (is_pending plan emails) rows d))

batch_notify_or_remind_lem :
    (service : List (Option ℕ) → Bool) (emails : List (Option ℕ)) (plan : ℕ) (p : Plan) (w : World)
    → ((m : List (Option ℕ)) → service m ≡ false)
    → find plan w.plans ≡ some p
    → p.uuid ≡ plan
    → count (is_pending plan emails) w.licenses ≤ 50
    → batch_notify_or_remind service reminder_email_batch_size emails plan w
      ≡ (ok (order_by by_key (select (is_pending plan emails) w.licenses)), w)
unfolding batch_notify_or_remind get_plan
batch_notify_or_remind_lem service emails plan p w answers e key fits =
    let found = select (is_pending plan emails) w.licenses in
    let size = length-order_by by_key found ∙ length-select (is_pending plan emails) w.licenses in
    ground (arith, answers (map email_of (order_by by_key found)))

-- Where the plan exists, the services answer, and at most fifty licenses wait for activation under the
-- emails, a reminder task sets the time of the last reminder of those licenses and changes no other.
pub send_reminder_email_task_lem :
    (service : List (Option ℕ) → Bool) (emails : List (Option ℕ)) (plan : ℕ) (p : Plan) (w : World)
    → ((m : List (Option ℕ)) → service m ≡ false)
    → find plan w.plans ≡ some p
    → DistinctKeys w.licenses
    → count (is_pending plan emails) w.licenses ≤ 50
    → send_reminder_email_task service emails plan w
      ≡ (ok tt, with_rows (changed (is_pending plan emails) (reminded_at w.now) w.licenses) w)
unfolding send_reminder_email_task
send_reminder_email_task_lem service emails plan p w answers e d fits =
    let found = order_by by_key (select (is_pending plan emails) w.licenses) in
    ground (
      arith,
      batch_notify_or_remind_lem service emails plan p w answers e (key-find plan w.plans e) fits,
      bulk_update_lem (map (reminded_at w.now) found) w,
      saved-pending plan w.now emails w.licenses d,
    )
