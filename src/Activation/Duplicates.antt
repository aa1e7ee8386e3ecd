-- ===== src/Activation/Duplicates.antt =====
-- Which licenses are left to an email in a plan when its duplicates have been reset.
use license_manager.Base.{
  ℕ, ◌+◌, ◌<◌, ◌≡◌, inl, inr, refl, ◌∙◌, Bool, true, false, not, ◌&&◌, ◌||◌, some, none, List, [],
  ◌∷◌, All, All-first, All-select, All-order_by, List-cases, first-none, Option-cases, arith, count,
  exists, first, length, select, select-All, length-select, length-order_by, order_by, same, ◌==◌,
}
use license_manager.Base.Table.{find, upsert, count-upsert, find-upsert_ne}
use license_manager.Base.Table.Keys.{
  DistinctKeys, IsLoaded, IsLoaded-saved, select-IsLoaded, select-DistinctKeys, upsert-DistinctKeys,
  first-IsLoaded, length-others, find-others, order_by-DistinctKeys,
}
use license_manager.Models.{License, license_keyed, reset_to_unassigned, is_activated}
use license_manager.Store.{World, ok, save_license, clean}
use license_manager.Activation.{
  reset_each, clean_up_duplicate_licenses, keep_activated, keep_newest, mixed_dates, unrevoked_of,
  assigned_later,
}

-- The world with other license rows.
abbrev pub with_rows : List License → World → World
with_rows rows w = record w { db = record w.db { licenses = rows } }

-- A license that the email holds in the plan: it is not revoked.
abbrev pub held : ℕ → ℕ → License → Bool
held plan email l = unrevoked_of plan l && same l.user_email (some email)

save_license_reset :
    (l : License) (w : World)
    → IsLoaded w.licenses l
    → save_license (reset_to_unassigned l) w
      ≡ (ok tt, with_rows (upsert (reset_to_unassigned l) w.licenses) w)
unfolding save_license clean reset_to_unassigned
save_license_reset l w row = ground arith

reset_rows : List License → List License → List License
reset_rows [] rows = rows
reset_rows (l ∷ ls) rows = reset_rows ls (upsert (reset_to_unassigned l) rows)

module _ (plan email : ℕ) where
  -- What resetting some of the held licenses leaves.
  record IsReset (ls rows after : List License) : Type 0 where
    left : count (held plan email) after + length ls ≡ count (held plan email) rows
    keys : DistinctKeys after
    kept : (c : License) → IsLoaded rows c → find c.uuid ls ≡ none → IsLoaded after c

  reset_each_lem :
      (ls : List License) (w : World)
      → DistinctKeys w.licenses
      → All (IsLoaded w.licenses) ls
      → DistinctKeys ls
      → All (λ l. held plan email l ≡ true) ls
      → (reset_each ls w ≡ (ok tt, with_rows (reset_rows ls w.licenses) w))
        × IsReset ls w.licenses (reset_rows ls w.licenses)
  unfolding reset_each reset_rows reset_to_unassigned
  reset_each_lem [] w keys loaded distinct ours =
      (refl, record { left = omega arith; keys = keys; kept = λ c h e. h })
  reset_each_lem (l ∷ ls) w keys loaded distinct ours =
      let l' = reset_to_unassigned l in
      let w' = with_rows (upsert l' w.licenses) w in
      let (run, rest) =
        reset_each_lem ls w' (upsert-DistinctKeys l' w.licenses keys)
          (IsLoaded-saved l' w.licenses ls distinct.0 loaded.1) distinct.1 ours.1 in
      (
        ground (arith, save_license_reset l w loaded.0, run),
        record {
          left = ground (arith, rest.left, count-upsert (held plan email) l' l w.licenses loaded.0);
          keys = rest.keys;
          kept = λ c h e.
              rest.kept c (ground (arith, find-upsert_ne l' c.uuid w.licenses)) (ground arith);
        },
      )

  -- Rows in which the email holds exactly one license of the plan, and this is `c`.
  pub record IsOnly (c : License) (rows : List License) : Type 0 where
    pub one : count (held plan email) rows ≡ 1
    pub keys : DistinctKeys rows
    pub row : IsLoaded rows c
    pub ours : held plan email c ≡ true

  -- Keeping one of the held licenses and resetting all others.
  reset_others :
      (c : License) (ls : List License) (w : World)
      → DistinctKeys w.licenses
      → All (IsLoaded w.licenses) ls
      → DistinctKeys ls
      → All (λ l. held plan email l ≡ true) ls
      → IsLoaded w.licenses c
      → held plan email c ≡ true
      → find c.uuid ls ≡ none
      → length ls + 1 ≡ count (held plan email) w.licenses
      → (rows : List License) × (reset_each ls w ≡ (ok tt, with_rows rows w)) × IsOnly c rows
  reset_others c ls w keys loaded distinct ours row mine other n =
      let (run, reset) = reset_each_lem ls w keys loaded distinct ours in
      (
        reset_rows ls w.licenses,
        run,
        record {
          one = omega (arith, reset.left);
          keys = reset.keys;
          row = reset.kept c row other;
          ours = mine;
        },
      )

  -- The licenses of the plan that the email holds.
  abbrev pub duplicates_in : World → List License
  duplicates_in w = select (held plan email) w.licenses

  module _ (w : World) (keys : DistinctKeys w.licenses) where
    dup-IsLoaded : All (IsLoaded w.licenses) (duplicates_in w)
    dup-IsLoaded = select-IsLoaded (held plan email) w.licenses keys

    dup-DistinctKeys : DistinctKeys (duplicates_in w)
    dup-DistinctKeys = select-DistinctKeys (held plan email) w.licenses keys

    dup_ours : All (λ l. held plan email l ≡ true) (duplicates_in w)
    dup_ours = select-All (held plan email) w.licenses

    keep_activated_lem :
        (a : License)
        → first (λ l. is_activated l.status) (duplicates_in w) ≡ some a
        → (rows : List License) × (keep_activated a (duplicates_in w) w ≡ (ok a, with_rows rows w))
          × IsOnly a rows
    unfolding keep_activated
    keep_activated_lem a e =
        let other = λ (l : License). not (l.uuid == a.uuid) in
        let here =
          first-IsLoaded (λ l. is_activated l.status) (duplicates_in w) {a = a} dup-DistinctKeys
            e in
        let (rows, run, only) =
          reset_others a (select other (duplicates_in w)) w keys
            (All-select (IsLoaded w.licenses) other (duplicates_in w) dup-IsLoaded)
            (select-DistinctKeys other (duplicates_in w) dup-DistinctKeys)
            (All-select (λ l. held plan email l ≡ true) other (duplicates_in w) dup_ours)
            (All-first (IsLoaded w.licenses) (λ l. is_activated l.status) (duplicates_in w)
              dup-IsLoaded e).0
            (All-first (λ l. held plan email l ≡ true) (λ l. is_activated l.status)
              (duplicates_in w) dup_ours e).0
            (find-others a (duplicates_in w))
            (length-others a (duplicates_in w) dup-DistinctKeys here
              ∙ length-select (held plan email) w.licenses) in
        (rows, ground (arith, run), only)

    keep_newest_lem :
        mixed_dates (duplicates_in w) ≡ false
        → 0 < count (held plan email) w.licenses
        → (c : License) × (rows : List License) × (keep_newest (duplicates_in w) w
            ≡ (ok c, with_rows rows w))
          × IsOnly c rows
    unfolding keep_newest
    keep_newest_lem dated some_held =
        let sorted = order_by assigned_later (duplicates_in w) in
        let size = length-order_by assigned_later (duplicates_in w) in
        let loaded =
          All-order_by (IsLoaded w.licenses) assigned_later (duplicates_in w) dup-IsLoaded in
        let ours =
          All-order_by (λ l. held plan email l ≡ true) assigned_later (duplicates_in w) dup_ours in
        let distinct = order_by-DistinctKeys assigned_later (duplicates_in w) dup-DistinctKeys in
        let total = length-select (held plan email) w.licenses in
        elim (List-cases sorted) [
          | inl e ↦ ground arith
          | inr (c, rest, e) ↦
              let loaded' = rw e at loaded in
              let ours' = rw e at ours in
              let distinct' = rw e at distinct in
              let (rows, run, only) =
                reset_others c rest w keys loaded'.1 distinct'.1 ours'.1 loaded'.0 ours'.0
                  distinct'.0 (ground arith) in
              (c, rows, ground (arith, run), only)
        ]

    pub clean_up_lem :
        (exists (λ d. is_activated d.status) (duplicates_in w)
            || not (mixed_dates (duplicates_in w)))
          ≡ true
        → 0 < count (held plan email) w.licenses
        → (c : License) × (rows : List License) × (clean_up_duplicate_licenses (duplicates_in w) w
            ≡ (ok c, with_rows rows w))
          × IsOnly c rows
    unfolding clean_up_duplicate_licenses
    clean_up_lem dated some_held =
        elim (Option-cases (first (λ d. is_activated d.status) (duplicates_in w))) [
          | inl e ↦
              let absent = first-none (λ d. is_activated d.status) (duplicates_in w) e in
              let (c, rows, run, only) = keep_newest_lem (ground arith) some_held in
              (c, rows, ground (arith, e, run), only)
          | inr (a, e) ↦
              let (rows, run, only) = keep_activated_lem a e in
              (a, rows, ground (arith, e, run), only)
        ]
