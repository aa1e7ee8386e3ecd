-- ===== src/Renewal/Into.antt =====
-- What the transaction of `renew_subscription` leaves, when it is entered.
use Prim.Native.String.{String}
use license_manager.Base.{
  ℕ, ◌+◌, ◌-◌, ◌≤◌, ◌≡◌, ◌∙◌, true, false, exists, ◌&&◌, some, none, Option, List, ◌++◌, All,
  All-append, All-map_imp, arith, count, length, select, select-All, length-select, ◌==◌,
  if◌then◌else◌, Bool-cases, inl, inr,
}
use license_manager.Base.Table.{find, upsert, find-upsert_self}
use license_manager.Base.Table.Keys.{
  DistinctKeys, IsLoaded, select-IsLoaded, select-DistinctKeys, upsert-DistinctKeys,
  find-append_some,
}
use license_manager.Models.{
  License, Plan, Renewal, Agreement, license_keyed, plan_keyed, renewal_keyed, agreement_keyed,
  in_plan, licenses_of, revocable_in, unrevoked_in, num_licenses, LicenseTypes,
  assigned_and_activated, activated_only, nothing,
}
use license_manager.Store.{World, ok, when, save_plan, fresh_licenses}
use license_manager.Store.Counts.{grown, increase_num_licenses_lem, count-grown}
use license_manager.Store.Sound.{IsSound, save_plan-IsSound, grown-IsSound}
use license_manager.Renewal.{
  Origin, has_title_of, clashes, save_future_plan, save_renewal, renew_into,
  original_licenses_to_copy, auto_applies, toggle_auto_apply_licenses, is_copied,
}
use license_manager.Renewal.Toggle.{IsTarget, toggle_auto_apply_licenses_whole, with_plans}
use license_manager.Renewal.Copies.{IsSource, IsCopied}
use license_manager.Renewal.Room.{IsQuiet, select-IsFree, fresh_licenses-IsQuiet, count-IsQuiet}
use license_manager.Renewal.Written.{renew_all_licenses_lem, rows_after, rows_after-IsCopied}

-- What a renewal that goes through leaves. The future plan reports the number of licenses that was
-- asked for and has `n` assigned or activated ones more, no other plan's numbers move, and the
-- renewal is processed and refers to the future plan.
pub record IsRenewal (r : Renewal) (future : Plan) (n : ℕ) (w w' : World) : Type 0 where
  pub reported :
      (q : ℕ)
      → num_licenses q w'.licenses
        ≡ (if future.uuid == q then r.number_of_licenses else num_licenses q w.licenses)
  pub copied :
      (q : ℕ)
      → count (revocable_in q) w'.licenses
        ≡ count (revocable_in q) w.licenses + (if future.uuid == q then n else 0)
  pub processed :
      find r.id w'.renewals
      ≡ some (record r {
        renewed_subscription_plan = some future.uuid;
        processed = true;
        processed_datetime = some w.now;
      })

is_copied-IsSource : (types : LicenseTypes) (l : License) → is_copied types l ≡ true → IsSource l
is_copied-IsSource assigned_and_activated l h = h
is_copied-IsSource activated_only l h = ground arith
is_copied-IsSource nothing l h = ground arith

IsSource-copied :
    (plan : ℕ) (r : Renewal) (rows : List License)
    → All IsSource (select (λ l. in_plan plan l && is_copied r.license_types_to_copy l) rows)
IsSource-copied plan r rows =
    All-map_imp (λ l. (in_plan plan l && is_copied r.license_types_to_copy l) ≡ true) IsSource
      (select (λ l. in_plan plan l && is_copied r.license_types_to_copy l) rows)
      (λ l h. is_copied-IsSource r.license_types_to_copy l (ground arith))
      (select-All (λ l. in_plan plan l && is_copied r.license_types_to_copy l) rows)

IsLoaded-append :
    (ls rows new : List License) → All (IsLoaded rows) ls → All (IsLoaded (rows ++ new)) ls
IsLoaded-append ls rows new h =
    All-map_imp (IsLoaded rows) (IsLoaded (rows ++ new)) ls
      (λ l e. find-append_some l.uuid rows new e) h

module _ (year : ℕ → String) (r : Renewal) (original future : Plan) (by : Origin) (w : World)
    (a : Agreement) (sound : IsSound w) (plan_keys : DistinctKeys w.plans)
    (quiet : All (IsQuiet future.uuid) w.licenses)
    (room : length (licenses_of future.uuid w.licenses) ≤ r.number_of_licenses)
    (fits : length (original_licenses_to_copy original.uuid r.license_types_to_copy w)
      ≤ r.number_of_licenses)
    (customer : future.customer_agreement ≡ original.customer_agreement)
    (agreement : find future.customer_agreement w.agreements ≡ some a)
    (titled : exists (has_title_of future) w.plans ≡ false)
    (alone : exists (clashes r.id r.prior_subscription_plan (some future.uuid)) w.renewals
      ≡ false) where
  abbrev originals : List License
  originals = original_licenses_to_copy original.uuid r.license_types_to_copy w

  abbrev saved_plan : World
  saved_plan = with_plans (upsert future w.plans) w

  abbrev missing : ℕ
  missing = r.number_of_licenses - num_licenses future.uuid w.licenses

  -- The world in which the licenses are copied.
  abbrev ready : World
  ready = grown future.uuid missing saved_plan

  ready-IsSound : IsSound ready
  ready-IsSound =
      grown-IsSound future.uuid missing saved_plan (save_plan-IsSound future w sound)
        (ground (arith, find-upsert_self future w.plans))

  ready-IsQuiet : All (IsQuiet future.uuid) ready.licenses
  ready-IsQuiet =
      All-append (IsQuiet future.uuid) w.licenses (fresh_licenses future.uuid w.next_uuid missing)
        quiet (fresh_licenses-IsQuiet future.uuid w.next_uuid missing)

  ready_number :
      (q : ℕ)
      → count (unrevoked_in q) ready.licenses
        ≡ (if future.uuid == q then r.number_of_licenses else count (unrevoked_in q) w.licenses)
  unfolding num_licenses
  ready_number q = ground (
    arith,
    count-grown (unrevoked_in q) (future.uuid == q) future.uuid missing saved_plan
        (λ u. ground arith),
    count-IsQuiet future.uuid w.licenses quiet,
    length-select (in_plan future.uuid) w.licenses,
  )

  ready-IsCopied :
      IsCopied future w.now (length originals) ready.licenses (rows_after originals future ready)
  unfolding original_licenses_to_copy
  ready-IsCopied =
      let p = λ (l : License). in_plan original.uuid l && is_copied r.license_types_to_copy l in
      rows_after-IsCopied originals future ready ready-IsSound.keys
        (IsLoaded-append originals w.licenses (fresh_licenses future.uuid w.next_uuid missing)
          (select-IsLoaded p w.licenses sound.keys))
        (IsSource-copied original.uuid r w.licenses) (select-DistinctKeys p w.licenses sound.keys)
        (select-IsFree future.uuid ready.licenses ready-IsQuiet)
        (ground (
          arith,
          length-select (in_plan future.uuid) ready.licenses,
          count-IsQuiet future.uuid ready.licenses ready-IsQuiet,
          ready_number future.uuid,
        ))

  abbrev target : Option ℕ
  target = if r.disable_auto_apply_licenses then none else some future.uuid

  -- The last write, on a world in which the licenses are copied.
  abbrev closed : World → World
  closed v = record v {
    db = record v.db {
      renewals =
          upsert
            (record r {
              renewed_subscription_plan = some future.uuid;
              processed = true;
              processed_datetime = some v.now;
            })
            v.renewals;
    };
  }

  closed-IsRenewal :
      (v : World)
      → IsCopied future w.now (length originals) ready.licenses v.licenses
      → v.now ≡ w.now
      → IsRenewal r future (length originals) w (closed v)
  unfolding num_licenses
  closed-IsRenewal v copied now = record {
    reported = λ q. copied.reported q ∙ ready_number q;
    copied = λ q. ground (
      arith,
      copied.taken q,
      count-grown (revocable_in q) false future.uuid missing saved_plan (λ u. ground arith),
    );
    processed = ground (
      arith,
      now,
      find-upsert_self
          (record r {
            renewed_subscription_plan = some future.uuid;
            processed = true;
            processed_datetime = some v.now;
          })
          v.renewals,
    );
  }

  target-IsTarget :
      (v : World) → v.plans ≡ ready.plans → IsTarget original.customer_agreement v.plans target
  target-IsTarget v same = elim (Bool-cases r.disable_auto_apply_licenses) [
    | inl e ↦ rw e tt
    | inr e ↦ rw e (future, ground (arith, same, find-upsert_self future w.plans), customer)
  ]

  toggled :
      (v : World)
      → v.plans ≡ ready.plans
      → (after : List Plan) × (when
            (auto_applies original)
            (toggle_auto_apply_licenses original.customer_agreement target)
            v
          ≡ (ok tt, with_plans after v))
  toggled v same = elim (Bool-cases (auto_applies original)) [
    | inl on ↦
        let (after, run, done) =
          toggle_auto_apply_licenses_whole original.customer_agreement target v
            (rw same (upsert-DistinctKeys future w.plans plan_keys)) (target-IsTarget v same) in
        (after, ground (arith, run))
    | inr off ↦ (v.plans, ground arith)
  ]

  pub renew_into_lem :
      (w' : World) × (renew_into year r original future originals by w ≡ (ok tt, w'))
      × IsRenewal r future (length originals) w w'
  unfolding renew_into save_future_plan save_plan save_renewal
  renew_into_lem =
      let (v, run, into) =
        renew_all_licenses_lem originals future r by ready a agreement ready-IsCopied in
      let (after, toggle) = toggled v into.plans in
      (
        closed (with_plans after v),
        ground (
          arith,
          titled,
          alone,
          into.renewals,
          increase_num_licenses_lem future.uuid missing saved_plan,
          run,
          toggle,
        ),
        closed-IsRenewal (with_plans after v) into.copied into.now,
      )
