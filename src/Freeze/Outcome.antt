-- ===== src/Freeze/Outcome.antt =====
-- What a freeze leaves: no unassigned license of the plan, and every other license.
use license_manager.Base.{
  ℕ, ◌+◌, ◌≡◌, refl, true, false, not, some, List, [], ◌∷◌, ◌++◌, arith, count, exists, map, select,
  ◌==◌, if◌then◌else◌,
}
use license_manager.Base.Table.{find, upsert, find-upsert_self}
use license_manager.Models.{
  License, Plan, plan_keyed, license_deleted, unassigned_in, revocable_in, unrevoked_in,
  num_licenses, num_allocated_licenses,
}
use license_manager.Store.{World, ok, save_plan}
use license_manager.Store.Counts.{track_license_changes_lem, event_of}
use license_manager.Freeze.{
  rows_left, has_event, delete_licenses, delete_unused_licenses_post_freeze,
}

module _ (u : ℕ) (removed : List License) where
  unassigned-rows_left :
      (rows : List License) → count (unassigned_in u) (rows_left (unassigned_in u) removed rows) ≡ 0
  unassigned-rows_left [] = refl
  unassigned-rows_left (l ∷ rows) = ground (arith, unassigned-rows_left rows)

  allocated-rows_left :
      (q : ℕ) (rows : List License)
      → count (revocable_in q) (rows_left (unassigned_in u) removed rows)
        ≡ count (revocable_in q) rows
  allocated-rows_left q [] = refl
  allocated-rows_left q (l ∷ rows) = ground (arith, allocated-rows_left q rows)

  unrevoked-rows_left :
      (q : ℕ) (rows : List License)
      → count (unrevoked_in q) (rows_left (unassigned_in u) removed rows)
          + (if u == q then count (unassigned_in u) rows else 0)
        ≡ count (unrevoked_in q) rows
  unrevoked-rows_left q [] = ground arith
  unrevoked-rows_left q (l ∷ rows) = ground (arith, unrevoked-rows_left q rows)

-- What a freeze of a plan leaves.
pub record IsFrozen (p : Plan) (w w' : World) : Type 0 where
  pub none_left : count (unassigned_in p.uuid) w'.licenses ≡ 0
  pub allocated :
      (q : ℕ) → num_allocated_licenses q w'.licenses ≡ num_allocated_licenses q w.licenses
  pub reported :
      (q : ℕ)
      → num_licenses q w'.licenses
          + (if p.uuid == q then count (unassigned_in p.uuid) w.licenses else 0)
        ≡ num_licenses q w.licenses
  pub stamped : find p.uuid w'.plans ≡ some (record p { last_freeze_timestamp = some w.now })

-- Freezing a plan that supports it and of whose unassigned licenses none has an event noted on it
-- succeeds: the plan has no unassigned license left, no plan's
-- assigned and activated licenses change in number, the plan reports as many licenses less as were
-- unassigned, and no other plan another number; the plan has the time of the freeze.
pub delete_unused_licenses_post_freeze_whole :
    (p : Plan) (w : World)
    → p.can_freeze_unused_licenses ≡ true
    → exists (has_event w.license_events) (select (unassigned_in p.uuid) w.licenses) ≡ false
    → (w' : World) × (delete_unused_licenses_post_freeze p w ≡ (ok tt, w')) × IsFrozen p w w'
unfolding delete_unused_licenses_post_freeze delete_licenses save_plan num_licenses
    num_allocated_licenses
delete_unused_licenses_post_freeze_whole p w h eventless =
    let removed = select (unassigned_in p.uuid) w.licenses in
    let frozen = record p { last_freeze_timestamp = some w.now } in
    let deleted = record w {
      db = record w.db {
        licenses = rows_left (unassigned_in p.uuid) removed w.licenses;
        sources = select (λ s. not (exists (λ r. r.uuid == s.license) removed)) w.sources;
      };
    } in
    (
      record deleted {
        db = record deleted.db { plans = upsert frozen w.plans };
        events = w.events ++ map (event_of license_deleted) removed;
      },
      ground (arith, track_license_changes_lem license_deleted removed deleted),
      record {
        none_left = unassigned-rows_left p.uuid removed w.licenses;
        allocated = λ q. allocated-rows_left p.uuid removed q w.licenses;
        reported = λ q. unrevoked-rows_left p.uuid removed q w.licenses;
        stamped = find-upsert_self frozen w.plans;
      },
    )
