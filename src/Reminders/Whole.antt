-- ===== src/Reminders/Whole.antt =====
-- `remind_all` together with the tasks that it queues.
use license_manager.Base.{
  exists-order_by, exists-append, ℕ, ◌+◌, ◌≡◌, ◌≤◌, refl, sym, ap, ◌∙◌, Bool, true, false, not,
  ◌&&◌, ◌||◌, none, some, Option, List, [], ◌∷◌, ◌++◌, arith, All, count, exists, length, map,
  select, order_by, is_some, same, length-order_by, count-imp,
}
use license_manager.Base.Table.{find, key-find}
use license_manager.Base.Table.Keys.{DistinctKeys}
use license_manager.Models.{License, Plan, license_keyed, plan_keyed}
use license_manager.Store.{World, Result, ok, get_plan}
use license_manager.Store.Counts.{then_runs}
use license_manager.Store.Changed.{
  changed, changed-changed, changed_nothing, All-intro, changed_same, changed_alike,
  changed-DistinctKeys, count-changed,
}
use license_manager.Renewal.Copies.{with_rows}
use license_manager.Provisioning.{chunks}
use license_manager.Provisioning.Batches.{concat, FitsIn, chunks_whole}
use license_manager.Reminders.{
  assigned_in, email_of, reminded_at, reminder_email_batch_size, le_email, send_reminder_email_task,
  run_reminders, remind_all,
}
use license_manager.Reminders.Batch.{is_pending, send_reminder_email_task_lem}
use license_manager.Reminders.Emails.{is_null, task_of, send_reminders_lem}

-- An assigned license of the plan with this email
abbrev pub waits_for : ℕ → ℕ → License → Bool
waits_for plan email l = assigned_in plan l && same l.user_email (some email)

abbrev waits_under : ℕ → Option ℕ → License → Bool
waits_under plan e l = assigned_in plan l && (is_some l.user_email && same e l.user_email)

abbrev done : List License → World → Result Unit × World
done rows w = (ok tt, with_rows rows w)

count-never :
    (p : License → Bool) (rows : List License) → ((l : License) → p l ≡ false) → count p rows ≡ 0
count-never p [] h = refl
count-never p (l ∷ rows) h = ground (arith, h l, count-never p rows h)

module _ (plan : ℕ) where
  count-waits_under :
      (e : Option ℕ) (rows : List License)
      → ((email : ℕ) → count (waits_for plan email) rows ≤ 1)
      → count (waits_under plan e) rows ≤ 1
  count-waits_under none rows h =
      omega (arith, count-never (waits_under plan none) rows (λ l. ground arith))
  count-waits_under (some e) rows h = omega (
    arith,
    h e,
    count-imp (waits_for plan e) (waits_under plan (some e)) rows (λ l b. ground arith),
  )

  count-cons :
      (e : Option ℕ) (es : List (Option ℕ)) (rows : List License)
      → count (is_pending plan (e ∷ es)) rows
        ≤ count (waits_under plan e) rows + count (is_pending plan es) rows
  count-cons e es [] = omega arith
  count-cons e es (l ∷ rows) = ground (arith, count-cons e es rows)

  count-pending :
      (es : List (Option ℕ)) (rows : List License)
      → ((email : ℕ) → count (waits_for plan email) rows ≤ 1)
      → count (is_pending plan es) rows ≤ length es
  count-pending [] rows h = omega (arith, count-never (is_pending plan []) rows (λ l. ground arith))
  count-pending (e ∷ es) rows h =
      omega (arith, count-cons e es rows, count-waits_under e rows h, count-pending es rows h)

  pending_both :
      (now : ℕ) (c es : List (Option ℕ)) (rows : List License)
      → changed
          (is_pending plan es)
          (reminded_at now)
          (changed (is_pending plan (order_by le_email c)) (reminded_at now) rows)
        ≡ changed (is_pending plan (c ++ es)) (reminded_at now) rows
  pending_both now c es rows =
      changed-changed (is_pending plan (order_by le_email c)) (is_pending plan es)
        (is_pending plan (c ++ es)) (reminded_at now) rows
        (All-intro rows (λ l. ground (
          arith,
          exists-order_by (λ e. same e l.user_email) le_email c,
          exists-append (λ e. same e l.user_email) c es,
        )))

  module _ (service : List (Option ℕ) → Bool)
      (answers : (m : List (Option ℕ)) → service m ≡ false) where
    run_reminders_lem :
        (cs : List (List (Option ℕ))) (p : Plan) (w : World)
        → find plan w.plans ≡ some p
        → DistinctKeys w.licenses
        → ((email : ℕ) → count (waits_for plan email) w.licenses ≤ 1)
        → All (λ c. FitsIn 50 (length c)) cs
        → run_reminders service (map (task_of plan) cs) w ≡ (
          ok tt,
          with_rows (changed (is_pending plan (concat cs)) (reminded_at w.now) w.licenses) w,
        )
    unfolding run_reminders
    run_reminders_lem [] p w e d single fit =
        ap (λ rs. done rs w)
          (sym (
            changed_alike (is_pending plan []) (λ l. false) (reminded_at w.now) w.licenses
              (λ l. ground arith)
            ∙ changed_nothing (reminded_at w.now) w.licenses))
    run_reminders_lem (c ∷ cs) p w e d single fit =
        let es = order_by le_email c in
        let rows = changed (is_pending plan es) (reminded_at w.now) w.licenses in
        let w1 = with_rows rows w in
        let first = send_reminder_email_task_lem service es plan p w answers e d (
          omega (arith, count-pending es w.licenses single, length-order_by le_email c, fit.0.1)) in
        let rest =
          run_reminders_lem cs p w1 e
            (changed-DistinctKeys (is_pending plan es) (reminded_at w.now) w.licenses (λ l. refl) d)
            (λ email. omega (
              arith,
              single email,
              count-changed (is_pending plan es) (waits_for plan email) (reminded_at w.now)
                  w.licenses (λ l. refl),
            ))
            fit.1 in
        then_runs (send_reminder_email_task service es plan)
          (run_reminders service (map (task_of plan) cs)) w w1 first
          (rest ∙ ap (λ rs. done rs w) (pending_both w.now c (concat cs) w.licenses))

  -- The emails of the licenses that wait for activation
  abbrev pub waiting_emails : List License → List (Option ℕ)
  waiting_emails rows = map email_of (select (assigned_in plan) rows)

  -- An assigned license of the plan has an email.
  abbrev pub is_named : License → Bool
  is_named l = not (assigned_in plan l) || is_some l.user_email

  pending_more :
      (x : License) (xs ys : List License)
      → All (λ l. is_pending plan (waiting_emails xs) l ≡ assigned_in plan l) ys
      → All (λ l. is_pending plan (waiting_emails (x ∷ xs)) l ≡ assigned_in plan l) ys
  pending_more x xs [] h = tt
  pending_more x xs (l ∷ ys) h = (ground (arith, h.0), pending_more x xs ys h.1)

  waiting_found :
      (rows : List License)
      → All (λ l. is_named l ≡ true) rows
      → All (λ l. is_pending plan (waiting_emails rows) l ≡ assigned_in plan l) rows
  waiting_found [] h = tt
  waiting_found (l ∷ rows) h =
      (ground (arith, h.0), pending_more l rows rows (waiting_found rows h.1))

  none_null :
      (rows : List License)
      → All (λ l. is_named l ≡ true) rows
      → exists is_null (waiting_emails rows) ≡ false
  none_null [] h = refl
  none_null (l ∷ rows) h = ground (arith, h.0, none_null rows h.1)

  some_waiting :
      (rows : List License)
      → exists (λ e. true) (waiting_emails rows) ≡ exists (assigned_in plan) rows
  some_waiting [] = refl
  some_waiting (l ∷ rows) = ground (arith, some_waiting rows)

  remind_all_lem :
      (p : Plan) (w : World)
      → find plan w.plans ≡ some p
      → p.uuid ≡ plan
      → All (λ l. is_named l ≡ true) w.licenses
      → exists (assigned_in plan) w.licenses ≡ true
      → remind_all plan w ≡ (
        ok 204,
        record w {
          tasks =
              w.tasks
              ++ map (task_of plan) (chunks (waiting_emails w.licenses) reminder_email_batch_size);
        },
      )
  unfolding remind_all get_plan
  remind_all_lem p w e key named waiting =
      let cs = chunks (waiting_emails w.licenses) reminder_email_batch_size in
      let whole =
        (chunks_whole (waiting_emails w.licenses) reminder_email_batch_size (omega arith)).0 in
      let no_null : exists is_null (concat cs) ≡ false = rw whole (none_null w.licenses named) in
      ground (arith, send_reminders_lem plan cs w no_null, some_waiting w.licenses)

-- Where no task is queued, the plan exists, no two licenses share a uuid, an assigned license of
-- the plan has an email and no other one has the same, some license of the plan is assigned, and
-- the services answer: the request to remind all is answered with 204, and when the tasks that it
-- queued have run one after the other, every assigned license of the plan has this time as that of
-- its last reminder, and no other license and no other field has changed.
pub remind_all_whole :
    (service : List (Option ℕ) → Bool) (plan : ℕ) (p : Plan) (w : World)
    → ((m : List (Option ℕ)) → service m ≡ false)
    → w.tasks ≡ []
    → find plan w.plans ≡ some p
    → DistinctKeys w.licenses
    → All (λ l. is_named plan l ≡ true) w.licenses
    → ((email : ℕ) → count (waits_for plan email) w.licenses ≤ 1)
    → exists (assigned_in plan) w.licenses ≡ true
    → (w1 : World) × (w2 : World) × (remind_all plan w ≡ (ok 204, w1))
      × (run_reminders service w1.tasks w1 ≡ (ok tt, w2))
      × (w2.licenses ≡ changed (assigned_in plan) (reminded_at w.now) w.licenses)
remind_all_whole service plan p w answers idle e d named single waiting =
    let emails = waiting_emails plan w.licenses in
    let cs = chunks emails reminder_email_batch_size in
    let (whole, fit) = chunks_whole emails reminder_email_batch_size (omega arith) in
    let w1 : World = record w { tasks = w.tasks ++ map (task_of plan) cs } in
    let rows = changed (is_pending plan (concat cs)) (reminded_at w.now) w.licenses in
    let runs = run_reminders_lem plan service answers cs p w1 e d single fit in
    (
      w1,
      with_rows rows w1,
      remind_all_lem plan p w e (key-find plan w.plans e) named waiting,
      ap (λ ts. run_reminders service (ts ++ map (task_of plan) cs) w1) idle ∙ runs,
      changed_same (is_pending plan (concat cs)) (assigned_in plan) (reminded_at w.now) w.licenses
          (rw whole (waiting_found plan w.licenses named)),
    )
