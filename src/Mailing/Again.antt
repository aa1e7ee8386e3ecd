-- ===== src/Mailing/Again.antt =====
-- What a run of a command leaves of the licenses that it was about.
use license_manager.Base.{
  ℕ, ◌≡◌, ◌<◌, refl, ap, ◌∙◌, Bool, false, none, List, [], ◌∷◌, arith, All, All-map_imp, select,
  count,
}
use license_manager.Base.Table.Keys.{DistinctKeys}
use license_manager.Base.Pages.{by_key, has_key, has_key-select, has_key-order_by}
use license_manager.Models.{License, license_keyed}
use license_manager.Store.{World}
use license_manager.Store.Changed.{changed}
use license_manager.Retirement.{tables}
use license_manager.Provisioning.{chunks}
use license_manager.Provisioning.Batches.{concat, chunks_whole}
use license_manager.Mailing.Rounds.{failure_of}
use license_manager.Mailing.Snapshot.{recipients}
use license_manager.Mailing.Marked.{is_sent, with_marked}
use license_manager.Mailing.{
  Campaign, expiration_reminder, plan_expiration, Services, expiring, expiring_licenses,
  recently_expired_plan_licenses, sent_at,
}

pub select_every :
    (services : Services) (xss : List (List License))
    → ((xs : List License) → failure_of services xs ≡ none)
    → select (is_sent services) xss ≡ xss
select_every services [] h = refl
select_every services (xs ∷ xss) h = ground (arith, h xs, select_every services xss h)

pub sent_at_done :
    (c : Campaign) (enterprise days now : ℕ) (w : World) (l : License)
    → expiring c enterprise days (tables w) (sent_at c now l) ≡ false
unfolding expiring expiring_licenses recently_expired_plan_licenses
sent_at_done expiration_reminder enterprise days now w l = ground arith
sent_at_done plan_expiration enterprise days now w l = ground arith

-- Nothing is left of a query whose rows were all changed so that they do not pass.
count-changed_rows :
    (p q : License → Bool) (f : License → License) (rows : List License)
    → ((l : License) → q (f l) ≡ false)
    → All (λ l. p l ≡ q l) rows
    → count q (changed p f rows) ≡ 0
count-changed_rows p q f [] h e = refl
count-changed_rows p q f (x ∷ rows) h e =
    ground (arith, h x, e.0, count-changed_rows p q f rows h e.1)

pub none_left :
    (c : Campaign) (enterprise days batch_size : ℕ) (w : World)
    → 0 < batch_size
    → DistinctKeys w.licenses
    → let after = with_marked c (chunks (recipients c enterprise days w) batch_size) w in
      count (expiring c enterprise days (tables after)) after.licenses ≡ 0
none_left c enterprise days batch_size w h d =
    let q = expiring c enterprise days (tables w) in
    let all = recipients c enterprise days w in
    let p = λ (l : License). has_key l.uuid (concat (chunks all batch_size)) in
    count-changed_rows p q (sent_at c w.now) w.licenses (sent_at_done c enterprise days w.now w) (
      All-map_imp (λ (l : License). has_key l.uuid (select q w.licenses) ≡ q l)
        (λ (l : License). p l ≡ q l) w.licenses
        (λ l e.
          ap (has_key l.uuid) (chunks_whole all batch_size h).0
          ∙ has_key-order_by by_key l.uuid (select q w.licenses)
          ∙ e)
        (has_key-select q w.licenses d))
