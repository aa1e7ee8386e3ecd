-- ===== src/Assignment/Written.antt =====
-- The transaction of `_assign` in closed form, where it is entered with enough licenses.
use license_manager.Base.{
  ℕ, ◌+◌, ◌≤◌, ◌≡◌, refl, Bool, true, false, ◌&&◌, some, List, [], ◌∷◌, ◌++◌, All, All-take, arith,
  count, exists, length, length-take, length-select, select, select-All, take, ◌==◌,
}
use license_manager.Base.Table.Keys.{
  DistinctKeys, IsLoaded, select-IsLoaded, select-DistinctKeys, take-DistinctKeys,
}
use license_manager.Models.{
  License, LicenseSource, license_keyed, plan_keyed, agreement_keyed, unassigned_in,
}
use license_manager.Store.{World, ok}
use license_manager.Renewal.Copies.{saved, bulk_update_lem}
use license_manager.Assignment.{
  Entry, entry_keyed, assigned_rows, assign_new_licenses, new_sources,
  set_source_for_assigned_licenses, assign_emails,
}
use license_manager.Assignment.Counted.{IsAssigned, assigned_rows-IsAssigned}

-- A license that could not be assigned with a source: it is unassigned and has a source still.
abbrev pub keeps_source : ℕ → List LicenseSource → License → Bool
keeps_source plan sources l = unassigned_in plan l && exists (λ s. s.license == l.uuid) sources

abbrev Sourceless : List LicenseSource → License → Type 0
Sourceless sources l = exists (λ s. s.license == l.uuid) sources ≡ false

select-Sourceless :
    (plan : ℕ) (sources : List LicenseSource) (rows : List License)
    → exists (keeps_source plan sources) rows ≡ false
    → All (Sourceless sources) (select (unassigned_in plan) rows)
select-Sourceless plan sources [] h = tt
select-Sourceless plan sources (l ∷ rows) h = ground (arith, select-Sourceless plan sources rows)

assigned_rows-Sourceless :
    (sources : List LicenseSource) (now key : ℕ) (ls : List License) (es : List ℕ)
    → All (Sourceless sources) ls
    → All (Sourceless sources) (assigned_rows now key ls es)
unfolding assigned_rows
assigned_rows-Sourceless sources now key [] es h = tt
assigned_rows-Sourceless sources now key (l ∷ ls) [] h = h
assigned_rows-Sourceless sources now key (l ∷ ls) (e ∷ es) h =
    (h.0, assigned_rows-Sourceless sources now (key + 1) ls es h.1)

new_sources_apart :
    (entries : List Entry) (sources : List LicenseSource) (ls : List License)
    → All (Sourceless sources) ls
    → exists (λ s. exists (λ old. old.license == s.license) sources) (new_sources entries ls)
      ≡ false
new_sources_apart entries sources [] h = refl
new_sources_apart entries sources (l ∷ ls) h =
    ground (arith, new_sources_apart entries sources ls h.1)

pub length-assigned_rows :
    (now key : ℕ) (ls : List License) (es : List ℕ)
    → length (assigned_rows now key ls es) ≡ length ls
unfolding assigned_rows
length-assigned_rows now key [] es = refl
length-assigned_rows now key (l ∷ ls) [] = refl
length-assigned_rows now key (l ∷ ls) (e ∷ es) =
    ground (arith, length-assigned_rows now (key + 1) ls es)

module _ (plan : ℕ) (sfids : List Entry) (emails : List ℕ) (w : World)
    (keys : DistinctKeys w.licenses)
    (enough : length emails ≤ count (unassigned_in plan) w.licenses)
    (sourceless : exists (keeps_source plan w.sources) w.licenses ≡ false) where
  abbrev pub chosen : List License
  chosen = take (length emails) (select (unassigned_in plan) w.licenses)

  abbrev pub given : List License
  given = assigned_rows w.now w.next_uuid chosen emails

  pub length-chosen : length chosen ≡ length emails
  length-chosen = ground (
    arith,
    length-take (length emails) (select (unassigned_in plan) w.licenses),
    length-select (unassigned_in plan) w.licenses,
  )

  pub given-IsAssigned : IsAssigned plan w.now emails w.licenses (saved given w.licenses)
  given-IsAssigned =
      let free = select (unassigned_in plan) w.licenses in
      let p = unassigned_in plan in
      assigned_rows-IsAssigned plan w.now chosen emails w.next_uuid w.licenses
        (All-take (IsLoaded w.licenses) (length emails) free (select-IsLoaded p w.licenses keys))
        (take-DistinctKeys (length emails) free (select-DistinctKeys p w.licenses keys))
        (All-take (λ l. p l ≡ true) (length emails) free (select-All p w.licenses)) length-chosen

  -- The world after the transaction.
  abbrev pub committed : World
  committed = record w {
    db = record w.db {
      licenses = saved given w.licenses;
      sources = w.sources ++ new_sources sfids given;
    };
    next_uuid = w.next_uuid + length chosen;
  }

  pub assign_emails_lem : assign_emails plan sfids emails w ≡ (ok (some given), committed)
  unfolding assign_emails assign_new_licenses set_source_for_assigned_licenses
  assign_emails_lem =
      let moved = record w { next_uuid = w.next_uuid + length chosen } in
      ground (
        arith,
        bulk_update_lem given moved,
        new_sources_apart sfids w.sources given (
            assigned_rows-Sourceless w.sources w.now w.next_uuid chosen emails (
              All-take (Sourceless w.sources) (length emails)
                (select (unassigned_in plan) w.licenses)
                (select-Sourceless plan w.sources w.licenses sourceless))),
      )
