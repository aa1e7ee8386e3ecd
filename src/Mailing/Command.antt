-- ===== src/Mailing/Command.antt =====
-- A second run of a whole command, over all customers that it names.
use license_manager.Base.{
  ℕ, ◌≡◌, ◌<◌, ◌≤◌, refl, ap, ◌∙◌, Bool, false, none, some, Option, List, [], ◌∷◌, inl, inr, arith,
  All, select, count, length, not, ◌⊎◌,
}
use license_manager.Base.Table.Keys.{DistinctKeys}
use license_manager.Base.Pages.{has_key}
use license_manager.Models.{License, license_keyed}
use license_manager.Store.{World, Result, ok, err, value_error}
use license_manager.Store.Changed.{changed, changed-DistinctKeys}
use license_manager.Retirement.{tables}
use license_manager.Provisioning.{chunks}
use license_manager.Provisioning.Batches.{concat}
use license_manager.Mailing.Rounds.{failure_of, sent_at_key}
use license_manager.Mailing.Snapshot.{recipients, process_enterprise_customer_none}
use license_manager.Mailing.Marked.{is_sent, with_marked, process_enterprise_customer_lem}
use license_manager.Mailing.Again.{select_every, none_left, sent_at_done}
use license_manager.Mailing.{
  Campaign, Services, Counts, add_counts, no_counts, expiring, sent_at, process_enterprise_customer,
  process_customers, parse_enterprise_customer_uuids, handle,
}

-- No license of a customer waits for the message.
abbrev pub HasNone : Campaign → ℕ → World → ℕ → Type 0
HasNone c days w u = count (expiring c u days (tables w)) w.licenses ≡ 0

count-changed_less :
    (p q : License → Bool) (f : License → License) (rows : List License)
    → ((l : License) → q (f l) ≡ false)
    → count q (changed p f rows) ≤ count q rows
count-changed_less p q f [] h = omega arith
count-changed_less p q f (x ∷ rows) h = ground (arith, h x, count-changed_less p q f rows h)

-- Marking licenses as sent gives no customer more of those that wait.
HasNone-with_marked :
    (c : Campaign) (days : ℕ) (sent : List (List License)) (w : World) (u : ℕ)
    → HasNone c days w u
    → HasNone c days (with_marked c sent w) u
HasNone-with_marked c days sent w u h = omega (
  arith,
  count-changed_less (λ l. has_key l.uuid (concat sent)) (expiring c u days (tables w))
      (sent_at c w.now) w.licenses (sent_at_done c u days w.now w),
)

-- A run in which all services answered
record IsDone (c : Campaign) (days : ℕ) (uuids : List ℕ) (w w' : World) : Type 0 where
  keys : DistinctKeys w'.licenses
  done : All (HasNone c days w') uuids
  kept : (u : ℕ) → HasNone c days w u → HasNone c days w' u

module _ (c : Campaign) (services : Services) (days n : ℕ) (h : 0 < n)
    (answers : (u : ℕ) → services.get_enterprise_customer_data u ≡ none)
    (sends : (xs : List License) → failure_of services xs ≡ none) where
  select_no_failed : (xss : List (List License)) → select (λ xs. not (is_sent services xs)) xss ≡ []
  select_no_failed [] = refl
  select_no_failed (xs ∷ xss) = ground (arith, sends xs, select_no_failed xss)

  abbrev reported : List (List License) → List (List License) → World → Result Counts × World
  reported sent failed w = (
    ok (record { success_count = length (concat sent); failure_count = length (concat failed) }),
    with_marked c sent w,
  )

  customer-IsDone :
      (u : ℕ) (w : World)
      → DistinctKeys w.licenses
      → let w' = with_marked c (chunks (recipients c u days w) n) w in
        (count_sent : ℕ) × (process_enterprise_customer c services u days false n w
          ≡ (ok (record { success_count = count_sent; failure_count = 0 }), w'))
        × IsDone c days (u ∷ []) w w'
  customer-IsDone u w d =
      let batches = chunks (recipients c u days w) n in
      let runs =
        process_enterprise_customer_lem c services u days n w h d (answers u)
          (λ xs. ground (arith, sends xs)) in
      (
        length (concat batches),
        runs
            ∙ ap (λ sent. reported sent (select (λ xs. not (is_sent services xs)) batches) w)
                (select_every services batches sends)
            ∙ ap (λ failed. reported batches failed w) (select_no_failed batches),
        record {
          keys =
              changed-DistinctKeys (λ l. has_key l.uuid (concat batches)) (sent_at c w.now)
                w.licenses (sent_at_key c w.now) d;
          done = (none_left c u days n w h d, tt);
          kept = λ v. HasNone-with_marked c days batches w v;
        },
      )

  -- The loop over the customers counts no failure.
  customers-IsDone :
      (uuids : List ℕ) (total : Counts) (w : World)
      → DistinctKeys w.licenses
      → (counts : Counts) × (w' : World) × (process_customers c services days false n uuids total w
          ≡ (ok counts, w'))
        × (counts.failure_count ≡ total.failure_count)
        × IsDone c days uuids w w'
  unfolding process_customers
  customers-IsDone [] total w d =
      (total, w, refl, refl, record { keys = d; done = tt; kept = λ u h. h })
  customers-IsDone (u ∷ uuids) total w d =
      let (sent, runs, one) = customer-IsDone u w d in
      let w1 = with_marked c (chunks (recipients c u days w) n) w in
      let result : Counts = record { success_count = sent; failure_count = 0 } in
      let (counts, w', rest, none_failed, more) =
        customers-IsDone uuids (add_counts total result) w1 one.keys in
      (
        counts,
        w',
        ground (arith, runs, rest),
        ground (arith, none_failed),
        record {
          keys = more.keys;
          done = (more.kept u one.done.0, more.done);
          kept = λ v h. more.kept v (one.kept v h);
        },
      )

-- Where no license waits, the loop over the customers does nothing.
customers_again :
    (c : Campaign) (services : Services) (days n : ℕ) (dry_run : Bool) (uuids : List ℕ)
    (total : Counts) (w : World)
    → All (HasNone c days w) uuids
    → process_customers c services days dry_run n uuids total w ≡ (ok total, w)
unfolding process_customers
customers_again c services days n dry_run [] total w h = refl
customers_again c services days n dry_run (u ∷ uuids) total w h = ground (
  arith,
  process_enterprise_customer_none c services u days n dry_run w h.0,
  customers_again c services days n dry_run uuids total w h.1,
)

-- Parsing the words reads and changes nothing.
parse-cases :
    (words : List (Option ℕ))
    → ((uuids : List ℕ) × ((w : World) → parse_enterprise_customer_uuids words w ≡ (ok uuids, w)))
      ⊎ ((w : World) → parse_enterprise_customer_uuids words w ≡ (err value_error, w))
unfolding parse_enterprise_customer_uuids
parse-cases [] = inl ([], λ w. refl)
parse-cases (none ∷ words) = inr (λ w. refl)
parse-cases (some u ∷ words) = elim (parse-cases words) [
  | inl (uuids, e) ↦ inl (u ∷ uuids, λ w. ground (arith, e w))
  | inr e ↦ inr (λ w. ground (arith, e w))
]

module _ (c : Campaign) (services : Services) (words : List (Option ℕ)) (days n : ℕ)
    (dry_run : Bool) where
  handle_invalid :
      (w : World)
      → parse_enterprise_customer_uuids words w ≡ (err value_error, w)
      → handle c services words days dry_run n w ≡ (err value_error, w)
  unfolding handle
  handle_invalid w e = ground (arith, e)

  handle_empty :
      (w : World)
      → parse_enterprise_customer_uuids words w ≡ (ok [], w)
      → handle c services words days dry_run n w ≡ (err value_error, w)
  unfolding handle
  handle_empty w e = ground (arith, e)

  handle_runs :
      (u : ℕ) (uuids : List ℕ) (counts : Counts) (w w' : World)
      → parse_enterprise_customer_uuids words w ≡ (ok (u ∷ uuids), w)
      → process_customers c services days dry_run n (u ∷ uuids) no_counts w ≡ (ok counts, w')
      → counts.failure_count ≡ 0
      → handle c services words days dry_run n w ≡ (ok tt, w')
  unfolding handle
  handle_runs u uuids counts w w' e f z = ground (arith, e, f, z)

-- After a run of a command, not a dry one, in which the campaign was configured and no call to a
-- service raised, running it again for the same customers and the same number of days ends in the
-- same way, sends nothing and changes nothing, whatever the services do then, with any batch size
-- and with or without a dry run. It needs a batch size above zero in the first run, distinct uuids
-- of the licenses, and the same clock in both runs.
pub handle_again :
    (c : Campaign) (services later : Services) (words : List (Option ℕ)) (days n m : ℕ)
    (dry_run : Bool) (w : World)
    → 0 < n
    → DistinctKeys w.licenses
    → ((u : ℕ) → services.get_enterprise_customer_data u ≡ none)
    → ((xs : List License) → failure_of services xs ≡ none)
    → let (result, after) = handle c services words days false n w in
      handle c later words days dry_run m after ≡ (result, after)
handle_again c services later words days n m dry_run w h d answers sends =
    elim (parse-cases words) [
      | inr e ↦
          rw (handle_invalid c services words days n false w (e w))
            (handle_invalid c later words days m dry_run w (e w))
      | inl ([], e) ↦
          rw (handle_empty c services words days n false w (e w))
            (handle_empty c later words days m dry_run w (e w))
      | inl (u ∷ uuids, e) ↦
          let (counts, w', runs, none_failed, one) =
            customers-IsDone c services days n h answers sends (u ∷ uuids) no_counts w d in
          rw (handle_runs c services words days n false u uuids counts w w' (e w) runs none_failed)
            (handle_runs c later words days m dry_run u uuids no_counts w' w' (e w')
              (customers_again c later days m dry_run (u ∷ uuids) no_counts w' one.done) refl)
    ]
