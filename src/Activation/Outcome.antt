-- ===== src/Activation/Outcome.antt =====
-- What activating by a key leaves: one license of the plan for the email, and it is active.
use license_manager.Base.{
  ℕ, Option, ◌≡◌, inl, inr, refl, Bool, true, false, not, ◌&&◌, ◌||◌, ◌++◌, some, none, List, [],
  ◌∷◌, All, All-first, List-cases, Bool-cases, arith, exists, first, length, select, select-All,
  select-select, length-select, same, is_some, ltb, if◌then◌else◌,
}
use license_manager.Base.Table.{find, upsert, count-upsert, find-upsert_self}
use license_manager.Base.Table.Keys.{
  DistinctKeys, IsLoaded, select-IsLoaded, upsert-DistinctKeys, count-IsLoaded, exists-others,
}
use license_manager.Models.{
  License, Plan, Agreement, license_keyed, plan_keyed, agreement_keyed, activated,
  license_activated, is_activated, is_assigned, is_revoked,
}
use license_manager.Store.{
  World, ok, save_license, clean, get_plan, get_agreement, track_event, conflicts,
  post_activation_email,
}
use license_manager.Store.Counts.{event_of}
use license_manager.Activation.{
  get_licenses_by_email, get_license_by_email_and_activation_key, license_for_activation,
  mixed_dates, unrevoked_of, is_open, activate, track_and_notify, activate_by_key, post,
}
use license_manager.Activation.Duplicates.{with_rows, held, IsOnly, clean_up_lem, duplicates_in}

-- The license that the email and the key name, if there is one.
unfoldable pub IsNamed : ℕ → ℕ → World → License → Type 0
IsNamed email key w l =
    first (λ x. same x.activation_key (some key)) (get_licenses_by_email email w) ≡ some l

module _ (email : ℕ) (w : World) (keys : DistinctKeys w.licenses) (l : License) (key : ℕ)
    (found : IsNamed email key w l) where
  found_row : IsLoaded w.licenses l
  unfolding IsNamed get_licenses_by_email
  found_row =
      let q = λ (x : License).
        same x.user_email (some email) && is_open w.now (find x.subscription_plan w.plans) in
      (All-first (IsLoaded w.licenses) (λ x. same x.activation_key (some key))
        (get_licenses_by_email email w) (select-IsLoaded q w.licenses keys) found).0

  found_open :
      (same l.user_email (some email) ≡ true)
      × (is_open w.now (find l.subscription_plan w.plans) ≡ true)
  unfolding IsNamed get_licenses_by_email
  found_open =
      let q = λ (x : License).
        same x.user_email (some email) && is_open w.now (find x.subscription_plan w.plans) in
      let h =
        (All-first (λ x. q x ≡ true) (λ x. same x.activation_key (some key))
          (get_licenses_by_email email w) (select-All q w.licenses) found).0 in
      ground arith

  dups_eq :
      select (unrevoked_of l.subscription_plan) (get_licenses_by_email email w)
      ≡ duplicates_in l.subscription_plan email w
  unfolding get_licenses_by_email
  dups_eq =
      select-select (unrevoked_of l.subscription_plan)
        (λ x. same x.user_email (some email) && is_open w.now (find x.subscription_plan w.plans))
        (held l.subscription_plan email) w.licenses (λ x. ground (arith, found_open))

  -- What `license_for_activation` returns where it finds a license that is not revoked.
  license_for_activation_lem :
      is_revoked l.status ≡ false
      → (exists (λ d. is_activated d.status) (duplicates_in l.subscription_plan email w)
          || not (mixed_dates (duplicates_in l.subscription_plan email w)))
        ≡ true
      → (c : License) × (rows : List License) × (license_for_activation email key w
          ≡ (ok c, with_rows rows w))
        × IsOnly l.subscription_plan email c rows
  unfolding license_for_activation IsNamed get_license_by_email_and_activation_key
  license_for_activation_lem unrevoked dated =
      let plan = l.subscription_plan in
      let dups = duplicates_in plan email w in
      let mine : held plan email l ≡ true = ground (arith, found_open) in
      let pos = count-IsLoaded (held plan email) l.uuid w.licenses {a = l} found_row mine in
      let total = length-select (held plan email) w.licenses in
      let loaded_all : All (IsLoaded w.licenses) dups =
        select-IsLoaded (held plan email) w.licenses keys in
      let ours_all = select-All (held plan email) w.licenses in
      elim (Bool-cases (ltb 1 (length dups))) [
        | inl more ↦
            let (c, rows, run, only) = clean_up_lem plan email w keys dated pos in
            (c, rows, ground (arith, run, dups_eq), only)
        | inr single ↦ elim (List-cases dups) [
          | inl e ↦ ground arith
          | inr (c, rest, e) ↦
              let loaded = rw e at loaded_all in
              let ours = rw e at ours_all in
              (
                c,
                w.licenses,
                ground (arith, dups_eq),
                record { one = ground arith; keys = keys; row = loaded.0; ours = ours.0 },
              )
        ]
      ]

-- The license as `activate` writes it.
abbrev pub as_activated : ℕ → World → License → License
as_activated user w c = record c {
  status = activated;
  activation_date = some w.now;
  lms_user_id = some user;
}

module _ (plan email user : ℕ) (c : License) (rows : List License) (w : World)
    (only : IsOnly plan email c rows) where
  no_conflict : exists (conflicts (as_activated user w c)) rows ≡ false
  no_conflict =
      let mine = only.ours in
      exists-others (held plan email) (conflicts (as_activated user w c)) c rows only.keys only.row
        only.ours only.one (λ x h. ground arith)

  activate_lem :
      activate user c (with_rows rows w)
      ≡ (ok (as_activated user w c), with_rows (upsert (as_activated user w c) rows) w)
  unfolding activate save_license clean
  activate_lem = ground (arith, no_conflict, only.row)

  activated-IsOnly : IsOnly plan email (as_activated user w c) (upsert (as_activated user w c) rows)
  activated-IsOnly =
      let c' = as_activated user w c in
      let mine = only.ours in
      record {
        one = ground (arith, only.one, count-upsert (held plan email) c' c rows only.row);
        keys = upsert-DistinctKeys c' rows only.keys;
        row = find-upsert_self c' rows;
        ours = ground arith;
      }

-- Where no two licenses share a uuid, a license that can be found by its key and is not revoked:
-- when the plan and the agreement of the found license exist, and one of the email's licenses in the
-- plan is activated or their assignment dates are all set or all null, activating by the key
-- succeeds. Afterwards the email holds exactly one license of the plan that is not revoked, the one
-- that was returned, and it is not merely assigned.
pub activate_by_key_whole :
    (email user key : ℕ) (w : World) (l : License) (p : Plan) (a : Agreement)
    → DistinctKeys w.licenses
    → IsNamed email key w l
    → is_revoked l.status ≡ false
    → (exists (λ d. is_activated d.status) (duplicates_in l.subscription_plan email w)
        || not (mixed_dates (duplicates_in l.subscription_plan email w)))
      ≡ true
    → find l.subscription_plan w.plans ≡ some p
    → find p.customer_agreement w.agreements ≡ some a
    → (c : License) × (w' : World) × (activate_by_key email user key w ≡ (ok c, w'))
      × IsOnly l.subscription_plan email c w'.licenses
      × (is_assigned c.status ≡ false)
unfolding activate_by_key track_and_notify get_plan get_agreement track_event
activate_by_key_whole email user key w l p a keys found unrevoked dated plan agreement =
    let (c, rows, run, only) =
      license_for_activation_lem email w keys l key found unrevoked dated in
    let u = l.subscription_plan in
    let mine = only.ours in
    let c' = as_activated user w c in
    let rows' = upsert c' rows in
    let here : c.subscription_plan ≡ u = ground arith in
    elim (Bool-cases (is_assigned c.status)) [
      | inl assigned ↦ (
        c',
        record (with_rows rows' w) {
          events = w.events ++ event_of license_activated c' ∷ [];
          tasks =
              if a.disable_onboarding_notifications
              then w.tasks
              else w.tasks ++ post_activation_email a.enterprise_customer_uuid c'.user_email ∷ [];
        },
        ground (arith, run, activate_lem u email user c rows w only),
        activated-IsOnly u email user c rows w only,
        refl,
      )
      | inr ready ↦ (c, with_rows rows w, ground (arith, run), only, ready)
    ]

-- A license that was found and is not revoked.
abbrev pub is_usable : Option License → Bool
is_usable none = false
is_usable (some l) = not (is_revoked l.status)

-- Where the email and the key name no license of a current, active plan, or name a revoked one, the
-- view answers 404 or 422 and changes nothing.
pub post_refused :
    (email user key : ℕ) (w : World) (found : Option License)
    → first (λ x. same x.activation_key (some key)) (get_licenses_by_email email w) ≡ found
    → is_usable found ≡ false
    → post email user key w ≡ (ok (if is_some found then 422 else 404), w)
unfolding post activate_by_key license_for_activation get_license_by_email_and_activation_key
post_refused email user key w none e h = ground (arith, e)
post_refused email user key w (some l) e h = ground (arith, e)
