-- ===== src/Mailing/Marked.antt =====
-- Which licenses a command marks, what it sends and counts, and what a second run finds.
use mathlib.Core.List.{append_assoc, append-nil}
use license_manager.Base.{
  ℕ, ◌≡◌, ◌<◌, refl, ◌∙◌, Bool, false, not, none, some, List, [], ◌∷◌, ◌++◌, inl, inr, arith, All,
  All-append, length, length-append, select, map, is_some, Option-cases, All-order_by,
}
use license_manager.Base.Table.{find, upsert}
use license_manager.Base.Table.Keys.{
  DistinctKeys, IsLoaded, select-DistinctKeys, select-IsLoaded, order_by-DistinctKeys,
}
use license_manager.Base.Pages.{by_key, has_key}
use license_manager.Models.{License, license_keyed}
use license_manager.Store.{World, ok}
use license_manager.Store.Changed.{changed}
use license_manager.Renewal.Copies.{saved, with_rows}
use license_manager.Reminders.Batch.{saved-changed}
use license_manager.Retirement.{tables}
use license_manager.Provisioning.{chunks}
use license_manager.Provisioning.Batches.{concat, chunks_whole}
use license_manager.Mailing.Rounds.{
  failure_of, message_of, with_sent, process_batch_lem, sent_at_key,
}
use license_manager.Mailing.Snapshot.{
  process_each, recipients, process_enterprise_customer_snapshot,
}
use license_manager.Mailing.{
  Campaign, Services, Counts, no_counts, counted, expiring, sent_at, is_value_error,
  process_enterprise_customer,
}

module _ {A : Type 0} (P : A → Type 0) where
  All-left : (xs ys : List A) → All P (xs ++ ys) → All P xs
  All-left [] ys h = tt
  All-left (x ∷ xs) ys h = (h.0, All-left xs ys h.1)

  All-right : (xs ys : List A) → All P (xs ++ ys) → All P ys
  All-right [] ys h = h
  All-right (x ∷ xs) ys h = All-right xs ys h.1

  All-concat-select :
      (p : List A → Bool) (xss : List (List A)) → All P (concat xss) → All P (concat (select p xss))
  All-concat-select p [] h = tt
  All-concat-select p (xs ∷ xss) h =
      let rest = All-concat-select p xss (All-right xs (concat xss) h) in
      let both = All-append P xs (concat (select p xss)) (All-left xs (concat xss) h) rest in
      ground arith

find-right : (u : ℕ) (xs ys : List License) → find u (xs ++ ys) ≡ none → find u ys ≡ none
find-right u [] ys e = e
find-right u (x ∷ xs) ys e = ground (arith, find-right u xs ys)

-- Fewer rows behind the same ones
find-append_fewer :
    (u : ℕ) (xs ys zs : List License)
    → (find u ys ≡ none → find u zs ≡ none)
    → find u (xs ++ ys) ≡ none
    → find u (xs ++ zs) ≡ none
find-append_fewer u [] ys zs f e = f e
find-append_fewer u (x ∷ xs) ys zs f e = ground (arith, find-append_fewer u xs ys zs f)

find-concat-select :
    (u : ℕ) (p : List License → Bool) (xss : List (List License))
    → find u (concat xss) ≡ none
    → find u (concat (select p xss)) ≡ none
find-concat-select u p [] e = refl
find-concat-select u p (xs ∷ xss) e =
    let rest = find-concat-select u p xss (find-right u xs (concat xss) e) in
    let here =
      find-append_fewer u xs (concat xss) (concat (select p xss)) (find-concat-select u p xss) e in
    ground arith

DistinctKeys-fewer :
    (xs ys zs : List License)
    → ((u : ℕ) → find u ys ≡ none → find u zs ≡ none)
    → DistinctKeys zs
    → DistinctKeys (xs ++ ys)
    → DistinctKeys (xs ++ zs)
DistinctKeys-fewer [] ys zs f d h = d
DistinctKeys-fewer (x ∷ xs) ys zs f d h =
    (find-append_fewer x.uuid xs ys zs (f x.uuid) h.0, DistinctKeys-fewer xs ys zs f d h.1)

DistinctKeys-right : (xs ys : List License) → DistinctKeys (xs ++ ys) → DistinctKeys ys
DistinctKeys-right [] ys h = h
DistinctKeys-right (x ∷ xs) ys h = DistinctKeys-right xs ys h.1

DistinctKeys-concat-select :
    (p : List License → Bool) (xss : List (List License))
    → DistinctKeys (concat xss)
    → DistinctKeys (concat (select p xss))
DistinctKeys-concat-select p [] h = tt
DistinctKeys-concat-select p (xs ∷ xss) h =
    let rest = DistinctKeys-concat-select p xss (DistinctKeys-right xs (concat xss) h) in
    let both =
      DistinctKeys-fewer xs (concat xss) (concat (select p xss)) (λ u. find-concat-select u p xss)
        rest h in
    ground arith

-- The batches whose message the services send, and that they do not keep from being sent by a
-- ValueError
abbrev pub is_sent : Services → List License → Bool
is_sent services licenses = not (is_some (failure_of services licenses))

abbrev pub stops : Services → List License → Bool
stops services licenses = elim (failure_of services licenses) [
  | none ↦ false
  | some e ↦ is_value_error e
]

saved-append :
    (f : License → License) (xs ys rows : List License)
    → saved (map f (xs ++ ys)) rows ≡ saved (map f ys) (saved (map f xs) rows)
saved-append f [] ys rows = refl
saved-append f (x ∷ xs) ys rows = saved-append f xs ys (upsert (f x) rows)

-- The world after the messages of some batches were sent
abbrev after_sending : Campaign → List (List License) → World → World
after_sending c sent w =
    record (with_rows (saved (map (sent_at c w.now) (concat sent)) w.licenses) w) {
      tasks = w.tasks ++ map (message_of c) sent;
    }

after_sending_one :
    (c : Campaign) (xs : List License) (xss : List (List License)) (w : World)
    → after_sending c xss (with_sent c xs w) ≡ after_sending c (xs ∷ xss) w
after_sending_one c xs xss w = ground (
  arith,
  saved-append (sent_at c w.now) xs (concat xss) w.licenses,
  append_assoc w.tasks (message_of c xs ∷ []) (map (message_of c) xss),
)

process_each_lem :
    (c : Campaign) (services : Services) (xss : List (List License)) (counts : Counts) (w : World)
    → ((xs : List License) → stops services xs ≡ false)
    → process_each c services xss counts w ≡ (
      ok (
          counted counts
            (concat (select (is_sent services) xss))
            (concat (select (λ xs. not (is_sent services xs)) xss))),
      after_sending c (select (is_sent services) xss) w,
    )
unfolding process_each
process_each_lem c services [] counts w h = ground (arith, append-nil w.tasks)
process_each_lem c services (xs ∷ xss) counts w h = elim (Option-cases (failure_of services xs)) [
  | inl e ↦ ground (
    arith,
    process_batch_lem services xs counts w c,
    process_each_lem c services xss (counted counts xs []) (with_sent c xs w) h,
    after_sending_one c xs (select (is_sent services) xss) w,
    length-append xs (concat (select (is_sent services) xss)),
  )
  | inr (x, e) ↦ ground (
    arith,
    h xs,
    process_batch_lem services xs counts w c,
    process_each_lem c services xss (counted counts [] xs) w h,
    length-append xs (concat (select (λ xs. not (is_sent services xs)) xss)),
  )
]

-- The world after the messages of some batches were sent, with the licenses that are marked as those of
-- these batches
abbrev pub with_marked : Campaign → List (List License) → World → World
with_marked c sent w =
    record (with_rows (changed (λ l. has_key l.uuid (concat sent)) (sent_at c w.now) w.licenses)
      w) { tasks = w.tasks ++ map (message_of c) sent }

-- Let the recipients of a command be cut, in the order of their keys, into chunks of the batch
-- size. Where no call to Braze raises a ValueError and the campaign is configured, the command
-- sends one message to each chunk for which the calls to Braze return, in this order. It marks the
-- licenses of these chunks as sent and changes nothing else, and it reports their number, and the
-- number of the licenses of the other chunks as failures. It needs a batch size above zero,
-- distinct uuids of the licenses, no dry run, and the data of the customer from the API.
pub process_enterprise_customer_lem :
    (c : Campaign) (services : Services) (enterprise days batch_size : ℕ) (w : World)
    → 0 < batch_size
    → DistinctKeys w.licenses
    → services.get_enterprise_customer_data enterprise ≡ none
    → ((xs : List License) → stops services xs ≡ false)
    → let batches = chunks (recipients c enterprise days w) batch_size in
      let sent = select (is_sent services) batches in
      let failed = select (λ xs. not (is_sent services xs)) batches in
      process_enterprise_customer c services enterprise days false batch_size w ≡ (
        ok (record {
          success_count = length (concat sent);
          failure_count = length (concat failed);
        }),
        with_marked c sent w,
      )
process_enterprise_customer_lem c services enterprise days batch_size w h d e runs =
    let found = select (expiring c enterprise days (tables w)) w.licenses in
    let all = recipients c enterprise days w in
    let batches = chunks all batch_size in
    let sent = select (is_sent services) batches in
    let whole = (chunks_whole all batch_size h).0 in
    let distinct =
      order_by-DistinctKeys by_key found
        (select-DistinctKeys (expiring c enterprise days (tables w)) w.licenses d) in
    let loaded =
      All-order_by (IsLoaded w.licenses) by_key found
        (select-IsLoaded (expiring c enterprise days (tables w)) w.licenses d) in
    let marked =
      saved-changed (sent_at c w.now) (concat sent) w.licenses (sent_at_key c w.now) d
        (DistinctKeys-concat-select (is_sent services) batches (rw whole distinct))
        (All-concat-select (IsLoaded w.licenses) (is_sent services) batches (rw whole loaded)) in
    process_enterprise_customer_snapshot c services enterprise days batch_size w h d e
    ∙ process_each_lem c services batches no_counts w runs
    ∙ ground (arith, marked)
