-- ===== src/Mailing/Snapshot.antt =====
-- The batches that a command reads while it changes the database, against those of one snapshot.
use license_manager.Base.{
  ℕ, zero, suc, ◌≡◌, ◌<◌, refl, sym, ap, ◌∙◌, Bool, false, none, some, Option, List, [], ◌∷◌, inl,
  inr, arith, length, select, drop, map, order_by, count, Option-cases, Bool-cases, select-select,
  length-order_by, length-select, All-order_by, ◌==◌, count-le-length,
}
use license_manager.Base.Table.Keys.{
  DistinctKeys, IsLoaded, select-DistinctKeys, select-IsLoaded, order_by-DistinctKeys,
  take-DistinctKeys,
}
use license_manager.Base.{All-take}
use license_manager.Base.Pages.{
  by_key, behind, last_key, has_key, order_by-Ascending, last_key-take,
}
use license_manager.Models.{License, license_keyed}
use license_manager.Store.{World, Action, ok, pure, ◌>>=◌}
use license_manager.Store.Changed.{select-changed, changed-DistinctKeys}
use license_manager.Renewal.Copies.{saved}
use license_manager.Reminders.Batch.{saved-changed}
use license_manager.Retirement.{Query, Tables, tables}
use license_manager.Retirement.Pages.{left, page, page_bound, behind-page}
use license_manager.Provisioning.{chunks}
use license_manager.Mailing.Pages.{
  order_by-select, select-behind, slices, slices_next, slices-chunks, last_key-length, select_alike,
}
use license_manager.Mailing.{
  Campaign, Services, Counts, no_counts, counted, expiring, sent_at, process_batch, process_batches,
  process_enterprise_customer,
}
use license_manager.Mailing.Rounds.{failure_of, with_sent, process_batch_lem, sent_at_key}

-- The same rounds over batches that were all read before
unfoldable pub process_each : Campaign → Services → List (List License) → Counts → Action Counts
process_each c services [] counts = pure counts
process_each c services (licenses ∷ rest) counts = do
  more ← process_batch c services licenses counts
  process_each c services rest more

module _ (c : Campaign) (services : Services) (q : Query) (n : ℕ) where
  -- What is left of the query behind an offset, in the order of the keys
  abbrev remaining : Tables → Option ℕ → List License → List License
  remaining t offset rows = order_by by_key (select (left q t offset) rows)

  remaining_next :
      (t : Tables) (offset : Option ℕ) (rows : List License) (v : ℕ)
      → DistinctKeys rows
      → last_key (page q n t offset rows) ≡ some v
      → remaining t (some v) rows ≡ drop n (remaining t offset rows)
  remaining_next t offset rows v d e =
      let found = select (left q t offset) rows in
      let distinct = select-DistinctKeys (left q t offset) rows d in
      ap (order_by by_key) (
        sym (
          select-select (behind (some v)) (left q t offset) (left q t (some v)) rows
            (λ l. ground (arith, behind-page q n t offset rows v e l))))
      ∙ order_by-select (behind (some v)) found distinct
      ∙ select-behind n v (order_by by_key found) (order_by-Ascending found distinct) e

  -- Marking the licenses of a page changes nothing of what is behind it.
  remaining_sent :
      (t : Tables) (offset : Option ℕ) (rows : List License) (now v : ℕ)
      → DistinctKeys rows
      → last_key (page q n t offset rows) ≡ some v
      → let after = saved (map (sent_at c now) (page q n t offset rows)) rows in
        DistinctKeys after × (remaining t (some v) after ≡ remaining t (some v) rows)
  remaining_sent t offset rows now v d e =
      let licenses = page q n t offset rows in
      let found = select (left q t offset) rows in
      let p = λ (l : License). has_key l.uuid licenses in
      let f = sent_at c now in
      let marked =
        saved-changed f licenses rows (sent_at_key c now) d
          (take-DistinctKeys n (order_by by_key found)
            (order_by-DistinctKeys by_key found (select-DistinctKeys (left q t offset) rows d)))
          (All-take (IsLoaded rows) n (order_by by_key found) (
            All-order_by (IsLoaded rows) by_key found
              (select-IsLoaded (left q t offset) rows d))) in
      (
        rw marked (changed-DistinctKeys p f rows (sent_at_key c now) d),
        rw marked (
            ap (order_by by_key) (
              select-changed p (left q t (some v)) f rows
                (λ l b. ground (arith, page_bound q n t offset rows v l.uuid d e))
                (λ l b.
                  ground (arith, page_bound q n t offset rows v l.uuid d e, sent_at_key c now l)))),
      )

  abbrev after_reading : ℕ → List License → Counts → Option ℕ → Action Counts
  after_reading fuel licenses counts last = elim last [
    | none ↦ pure counts
    | some v ↦ process_batch c services licenses counts >>= λ more.
        process_batches fuel c services q n (some v) more
  ]

  process_batches_stop :
      (fuel : ℕ) (offset : Option ℕ) (counts : Counts) (w : World)
      → last_key (page q n (tables w) offset w.licenses) ≡ none
      → process_batches fuel c services q n offset counts w ≡ (ok counts, w)
  unfolding process_batches
  process_batches_stop zero offset counts w e = refl
  process_batches_stop (suc fuel) offset counts w e =
      ap (λ o. after_reading fuel (page q n (tables w) offset w.licenses) counts o w) e

  process_batches_next :
      (fuel v : ℕ) (offset : Option ℕ) (counts : Counts) (w : World)
      → last_key (page q n (tables w) offset w.licenses) ≡ some v
      → process_batches (suc fuel) c services q n offset counts w
        ≡ (process_batch c services (page q n (tables w) offset w.licenses) counts >>= λ more.
              process_batches fuel c services q n (some v) more)
            w
  unfolding process_batches
  process_batches_next fuel v offset counts w e =
      ap (λ o. after_reading fuel (page q n (tables w) offset w.licenses) counts o w) e

  -- A batch, then two ways to go on that come to the same
  rounds_alike :
      (licenses : List License) (counts : Counts) (w : World) (f g : Counts → Action Counts)
      → ((more : Counts) → f more w ≡ g more w)
      → ((more : Counts) → f more (with_sent c licenses w) ≡ g more (with_sent c licenses w))
      → (process_batch c services licenses counts >>= f) w
        ≡ (process_batch c services licenses counts >>= g) w
  rounds_alike licenses counts w f g same sent =
      elim (Option-cases (failure_of services licenses)) [
        | inl e ↦ ground (
          arith,
          process_batch_lem services licenses counts w c,
          sent (counted counts licenses []),
        )
        | inr (x, e) ↦ ground (
          arith,
          process_batch_lem services licenses counts w c,
          same (counted counts [] licenses),
        )
      ]

  process_batches-slices :
      (fuel : ℕ) (offset : Option ℕ) (counts : Counts) (w : World)
      → 0 < n
      → DistinctKeys w.licenses
      → process_batches fuel c services q n offset counts w
        ≡ process_each c services (slices fuel n (remaining (tables w) offset w.licenses)) counts w
  unfolding process_batches process_each
  process_batches-slices zero offset counts w h d = refl
  process_batches-slices (suc fuel) offset counts w h d =
      let rows = remaining (tables w) offset w.licenses in
      elim (Option-cases (last_key (page q n (tables w) offset w.licenses))) [
        | inl e ↦
            process_batches_stop (suc fuel) offset counts w e ∙ (rw (last_key-take n rows h e) refl)
        | inr (v, e) ↦
            let t = tables w in
            let next = remaining_next t offset w.licenses v d e in
            let kept = remaining_sent t offset w.licenses w.now v d e in
            let licenses = page q n t offset w.licenses in
            process_batches_next fuel v offset counts w e
            ∙ rounds_alike licenses counts w (process_batches fuel c services q n (some v))
                (process_each c services (slices fuel n (drop n rows)))
                (λ more.
                  process_batches-slices fuel (some v) more w h d
                  ∙ ap (λ xs. process_each c services (slices fuel n xs) more w) next)
                (λ more.
                  process_batches-slices fuel (some v) more (with_sent c licenses w) h kept.0
                  ∙ ap
                      (λ xs.
                        process_each c services (slices fuel n xs) more (with_sent c licenses w))
                      (kept.1 ∙ next))
            ∙ ap (λ bs. process_each c services bs counts w)
                (sym (slices_next n fuel rows (last_key-length n rows e)))
      ]

-- The licenses that a command is about, in the order in which it sends
abbrev pub recipients : Campaign → (enterprise days : ℕ) → World → List License
recipients c enterprise days w =
    order_by by_key (select (expiring c enterprise days (tables w)) w.licenses)

pub process_enterprise_customer_none :
    (c : Campaign) (services : Services) (enterprise days batch_size : ℕ) (dry_run : Bool)
    (w : World)
    → count (expiring c enterprise days (tables w)) w.licenses ≡ 0
    → process_enterprise_customer c services enterprise days dry_run batch_size w
      ≡ (ok no_counts, w)
unfolding process_enterprise_customer
process_enterprise_customer_none c services enterprise days batch_size dry_run w e = rw e refl

process_enterprise_customer_some :
    (c : Campaign) (services : Services) (enterprise days batch_size : ℕ) (w : World)
    → 0 < count (expiring c enterprise days (tables w)) w.licenses
    → services.get_enterprise_customer_data enterprise ≡ none
    → process_enterprise_customer c services enterprise days false batch_size w
      ≡ process_batches
          (length w.licenses)
          c
          services
          (expiring c enterprise days)
          batch_size
          none
          no_counts
          w
unfolding process_enterprise_customer
process_enterprise_customer_some c services enterprise days batch_size w h e =
    let found : (count (expiring c enterprise days (tables w)) w.licenses == 0) ≡ false =
      ground arith in
    rw (found, e) refl

-- A command that sends to a customer comes to the same as one that reads all its licenses first,
-- cuts the list, in the order of the keys, into chunks of the batch size, and sends to one chunk
-- after another: the same counts or error and the same world, however the Braze service answers. It
-- needs a batch size above zero, distinct uuids of the licenses, no dry run, and the data of the
-- customer from the API.
pub process_enterprise_customer_snapshot :
    (c : Campaign) (services : Services) (enterprise days batch_size : ℕ) (w : World)
    → 0 < batch_size
    → DistinctKeys w.licenses
    → services.get_enterprise_customer_data enterprise ≡ none
    → process_enterprise_customer c services enterprise days false batch_size w
      ≡ process_each c services (chunks (recipients c enterprise days w) batch_size) no_counts w
unfolding process_each
process_enterprise_customer_snapshot c services enterprise days batch_size w h d e =
    let q = expiring c enterprise days in
    let all =
      ap (order_by by_key)
        (select_alike (left q (tables w) none) (q (tables w)) w.licenses (λ l. ground arith)) in
    let rows = recipients c enterprise days w in
    let size =
      length-order_by by_key (select (q (tables w)) w.licenses)
      ∙ length-select (q (tables w)) w.licenses in
    elim (Bool-cases (count (q (tables w)) w.licenses == 0)) [
      | inl none_found ↦
          process_enterprise_customer_none c services enterprise days batch_size false w
            (ground arith)
          ∙ ap (λ bs. process_each c services bs no_counts w)
              (slices-chunks batch_size 0 rows h (ground (arith, size)))
      | inr found ↦
          process_enterprise_customer_some c services enterprise days batch_size w (ground arith) e
          ∙ process_batches-slices c services q batch_size (length w.licenses) none no_counts w h d
          ∙ ap
              (λ xs. process_each c services (slices (length w.licenses) batch_size xs) no_counts w)
              all
          ∙ ap (λ bs. process_each c services bs no_counts w)
              (slices-chunks batch_size (length w.licenses) rows h
                (omega (arith, size, count-le-length (q (tables w)) w.licenses)))
    ]
