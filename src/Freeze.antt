-- ===== src/Freeze.antt =====
-- Freezing a plan: `delete_unused_licenses_post_freeze` (subscriptions/api.py), with what Django does
-- when license rows are deleted: the signal of each row, the cascade to its source, the links of
-- renewed licenses to it, and the foreign key of its events, which refuses the deletion.
pub mod Outcome
mod Tests
use license_manager.Base.{
  ℕ, Bool, true, false, not, ◌&&◌, Option, none, some, List, [], ◌∷◌, exists, select, map, is_some,
  ◌==◌, if◌then◌else◌,
}
use license_manager.Models.{
  License, Plan, LicenseEvent, LicenseSource, license_deleted, unassigned_in,
}
use license_manager.Store.{
  Action, World, Result, ok, err, Error, pure, raise_if, database_error, gets, modify_db, save_plan,
  track_license_changes, freeze_not_supported, ◌>>=◌, ◌>>◌,
}

-- `on_delete=models.SET_NULL` of `renewed_to`
abbrev pub unlinked : List License → License → License
unlinked removed l = record l {
  renewed_to = elim l.renewed_to [
    | none ↦ none
    | some u ↦ if exists (λ r. r.uuid == u) removed then none else some u
  ];
}

abbrev pub rows_left : (License → Bool) → List License → List License → List License
rows_left p removed rows = map (unlinked removed) (select (λ l. not (p l)) rows)

-- The foreign key of `LicenseEvent`, which does nothing on deletion: the database keeps its constraint
abbrev pub has_event : List LicenseEvent → License → Bool
has_event license_events l = exists (λ e. e.license == l.uuid) license_events

-- `queryset.delete()`
unfoldable pub delete_licenses : (License → Bool) → Action Unit
delete_licenses p = do
  removed ← gets (λ w. select p w.licenses)
  referred ← gets (λ w. exists (has_event w.license_events) removed)
  raise_if referred database_error
  modify_db (λ db. record db {
    licenses = rows_left p removed db.licenses;
    sources = select (λ s. not (exists (λ r. r.uuid == s.license) removed)) db.sources;
  })
  track_license_changes license_deleted removed

unfoldable pub delete_unused_licenses_post_freeze : Plan → Action Unit
delete_unused_licenses_post_freeze p = do
  raise_if (not p.can_freeze_unused_licenses) freeze_not_supported
  delete_licenses (unassigned_in p.uuid)
  now ← gets (λ w. w.now)
  save_plan (record p { last_freeze_timestamp = some now })
