-- ===== src/Renewal/Written.antt =====
-- `_renew_all_licenses` in closed form.
use license_manager.Base.{
  ℕ, ◌+◌, ◌≤◌, ◌≡◌, refl, ◌∙◌, some, List, ◌++◌, All, arith, length, map, Option-cases, inl, inr,
}
use license_manager.Base.Table.{find}
use license_manager.Base.Table.Keys.{DistinctKeys, IsLoaded, select-IsLoaded, select-DistinctKeys}
use license_manager.Models.{
  License, Plan, Renewal, Agreement, license_keyed, plan_keyed, renewal_keyed, agreement_keyed,
  in_plan, licenses_of, license_renewed,
}
use license_manager.Store.{World, ok, get_agreement}
use license_manager.Store.Counts.{track_license_changes_lem, event_of}
use license_manager.Renewal.{
  Origin, renew_all_licenses, renew_licenses_as, future_of, linked_of, renewal_actions,
}
use license_manager.Renewal.Copies.{
  saved, bulk_update_lem, IsSource, IsFree, IsCopied, future_of-IsCopied, future_of_kept_each,
  with_rows, linked_of-IsCopied,
}

-- The rows that the two bulk updates leave.
abbrev pub rows_after : List License → Plan → World → List License
rows_after os p w =
    let fs = licenses_of p.uuid w.licenses in
    saved (linked_of os fs) (saved (future_of p w.now os fs) w.licenses)

abbrev renewed_world : ℕ → List License → Plan → Renewal → Origin → ℕ → World → World
renewed_world c os p r by enterprise w =
    let futures = future_of p w.now os (licenses_of p.uuid w.licenses) in
    record w {
      db = record w.db {
        licenses = rows_after os p w;
        actions = w.actions ++ renewal_actions by r p enterprise c os futures;
      };
      events = w.events ++ map (event_of license_renewed) futures;
    }

renew_licenses_as_lem :
    (c : ℕ) (os : List License) (p : Plan) (r : Renewal) (by : Origin) (w : World) (a : Agreement)
    → find p.customer_agreement w.agreements ≡ some a
    → renew_licenses_as c os p r by w
      ≡ (ok tt, renewed_world c os p r by a.enterprise_customer_uuid w)
unfolding renew_licenses_as get_agreement
renew_licenses_as_lem c os p r by w a agreement =
    let fs = licenses_of p.uuid w.licenses in
    let futures = future_of p w.now os fs in
    let done = record (with_rows (rows_after os p w) w) {
      db = record w.db {
        licenses = rows_after os p w;
        actions = w.actions ++ renewal_actions by r p a.enterprise_customer_uuid c os futures;
      };
    } in
    ground (
      arith,
      agreement,
      bulk_update_lem futures w,
      bulk_update_lem (linked_of os fs) (with_rows (saved futures w.licenses) w),
      track_license_changes_lem license_renewed futures done,
    )

pub rows_after-IsCopied :
    (os : List License) (p : Plan) (w : World)
    → DistinctKeys w.licenses
    → All (IsLoaded w.licenses) os
    → All IsSource os
    → DistinctKeys os
    → All (IsFree p.uuid) (licenses_of p.uuid w.licenses)
    → length os ≤ length (licenses_of p.uuid w.licenses)
    → IsCopied p w.now (length os) w.licenses (rows_after os p w)
rows_after-IsCopied os p w keys loaded sources distinct free room =
    let fs = licenses_of p.uuid w.licenses in
    let rows = saved (future_of p w.now os fs) w.licenses in
    let fs_loaded = select-IsLoaded (in_plan p.uuid) w.licenses keys in
    let fs_keys = select-DistinctKeys (in_plan p.uuid) w.licenses keys in
    let copied = future_of-IsCopied p w.now os fs w.licenses sources free fs_loaded fs_keys room in
    let linked =
      linked_of-IsCopied p w.now os fs rows
        (future_of_kept_each p w.now os fs w.licenses os sources loaded free fs_loaded) distinct
        room in
    record {
      reported = λ u. linked.reported u ∙ copied.reported u;
      taken = λ u. ground (arith, linked.taken u, copied.taken u);
    }

-- `_renew_all_licenses` returns, copies, and leaves the plans, agreements and renewals as they were.
pub record IsRenewedInto (p : Plan) (n : ℕ) (w w' : World) : Type 0 where
  pub copied : IsCopied p w.now n w.licenses w'.licenses
  pub plans : w'.plans ≡ w.plans
  pub renewals : w'.renewals ≡ w.renewals
  pub now : w'.now ≡ w.now

pub renew_all_licenses_lem :
    (os : List License) (p : Plan) (r : Renewal) (by : Origin) (w : World) (a : Agreement)
    → find p.customer_agreement w.agreements ≡ some a
    → IsCopied p w.now (length os) w.licenses (rows_after os p w)
    → (w' : World) × (renew_all_licenses os p r by w ≡ (ok tt, w'))
      × IsRenewedInto p (length os) w w'
unfolding renew_all_licenses
renew_all_licenses_lem os p r by w a agreement copied =
    let w0 = record w { next_uuid = w.next_uuid + 1 } in
    elim (Option-cases by.correlation_id) [
      | inl e ↦ (
        renewed_world w.next_uuid os p r by a.enterprise_customer_uuid w0,
        ground (arith, e, renew_licenses_as_lem w.next_uuid os p r by w0 a agreement),
        record { copied = copied; plans = refl; renewals = refl; now = refl },
      )
      | inr (c, e) ↦ (
        renewed_world c os p r by a.enterprise_customer_uuid w,
        ground (arith, e, renew_licenses_as_lem c os p r by w a agreement),
        record { copied = copied; plans = refl; renewals = refl; now = refl },
      )
    ]
