-- ===== src/AutoApply/Outcome.antt =====
-- What an automatic application leaves: the learner has an activated license.
use license_manager.Base.{
  ℕ, ◌+◌, ◌<◌, ◌≡◌, Bool, true, false, not, ◌&&◌, ◌||◌, Option, none, some, [], ◌∷◌, ◌++◌,
  first_passes, arith, count, exists, exists-count, first, first-none, ◌==◌, if◌then◌else◌,
  Option-cases, inl, inr,
}
use license_manager.Base.Table.{upsert, count-upsert}
use license_manager.Base.Table.Keys.{DistinctKeys, IsLoaded, exists-none, first-IsLoaded}
use license_manager.Models.{
  License, Plan, Agreement, license_keyed, agreement_keyed, unassigned_in, unrevoked_in,
  num_licenses, license_activated,
}
use license_manager.Store.{
  World, ok, auto_applied_license_email, utilization_threshold_email, save_license, clean,
  conflicts, track_license_changes, track_event, get_agreement,
}
use license_manager.Store.Counts.{event_of}
use license_manager.Assignment.{taken_by}
use license_manager.AutoApply.{
  auto_applicable_subscription, check_subscription_licenses, revoked_of, auto_applied_to, apply_to,
  auto_apply_new_license, auto_apply_in, auto_apply,
}

-- What an automatic application leaves.
pub record IsApplied (plan email : ℕ) (w w' : World) : Type 0 where
  pub everyone :
      (e : ℕ)
      → count (taken_by plan e) w'.licenses
        ≡ count (taken_by plan e) w.licenses + (if email == e then 1 else 0)
  pub pool : count (unassigned_in plan) w'.licenses + 1 ≡ count (unassigned_in plan) w.licenses
  pub reported : (q : ℕ) → num_licenses q w'.licenses ≡ num_licenses q w.licenses

module _ (p : Plan) (email user : ℕ) (l : License) (w : World) (row : IsLoaded w.licenses l)
    (free : unassigned_in p.uuid l ≡ true)
    (lacks : exists (taken_by p.uuid email) w.licenses ≡ false) where
  abbrev applied : License
  applied = auto_applied_to w.now w.next_uuid email user l

  no_conflict : exists (conflicts applied) w.licenses ≡ false
  no_conflict =
      exists-none (taken_by p.uuid email) (conflicts applied) w.licenses
        (ground (arith, exists-count (taken_by p.uuid email) w.licenses)) (λ x h. ground arith)

  apply_to_lem :
      (w' : World) × (apply_to l p email user w ≡ (ok (some applied), w'))
      × IsApplied p.uuid email w w'
  unfolding apply_to save_license clean track_license_changes track_event num_licenses
  apply_to_lem = (
    record w {
      db = record w.db { licenses = upsert applied w.licenses };
      next_uuid = w.next_uuid + 1;
      events = w.events ++ event_of license_activated applied ∷ [];
      tasks = w.tasks ++ utilization_threshold_email p.uuid ∷ [];
    },
    ground (arith, no_conflict, row),
    record {
      everyone = λ e. ground (arith, count-upsert (taken_by p.uuid e) applied l w.licenses row);
      pool = ground (arith, count-upsert (unassigned_in p.uuid) applied l w.licenses row);
      reported = λ q. ground (arith, count-upsert (unrevoked_in q) applied l w.licenses row);
    },
  )

-- The learner has a license of the plan, and none that is revoked.
abbrev pub has_already : ℕ → World → Option Plan → Bool
has_already email w none = false
has_already email w (some p) =
    not (exists (revoked_of p.uuid email) w.licenses) && exists (taken_by p.uuid email) w.licenses

-- The view has nothing to apply.
abbrev pub is_served : ℕ → World → Option Plan → Bool
is_served email w none = true
is_served email w (some p) =
    exists (revoked_of p.uuid email) w.licenses
    || exists (taken_by p.uuid email) w.licenses
    || count (unassigned_in p.uuid) w.licenses == 0

-- Where no two licenses share a uuid, an agreement with an applicable plan that has an unassigned
-- license, be it locked for renewal processing or not, and a learner who has no revoked, assigned
-- or activated license of that plan: the view answers 200. The learner's email then has one
-- assigned or activated license of the plan more, which is one, every other email has as many as
-- before, one unassigned license is gone, and no plan reports another number of licenses.
pub auto_apply_whole :
    (a : Agreement) (p : Plan) (email user : ℕ) (w : World)
    → DistinctKeys w.licenses
    → IsLoaded w.agreements a
    → auto_applicable_subscription a.uuid w ≡ some p
    → exists (revoked_of p.uuid email) w.licenses ≡ false
    → exists (taken_by p.uuid email) w.licenses ≡ false
    → 0 < count (unassigned_in p.uuid) w.licenses
    → (w' : World) × (auto_apply a.uuid email user w ≡ (ok 200, w')) × IsApplied p.uuid email w w'
unfolding auto_apply auto_apply_in auto_apply_new_license check_subscription_licenses get_agreement
auto_apply_whole a p email user w keys row found unrevoked lacks some_free =
    elim (Option-cases (first (unassigned_in p.uuid) w.licenses)) [
      | inl e ↦ ground (
        arith,
        first-none (unassigned_in p.uuid) w.licenses e,
        exists-count (unassigned_in p.uuid) w.licenses,
      )
      | inr (l, e) ↦
          let here = first-IsLoaded (unassigned_in p.uuid) w.licenses {a = l} keys e in
          let free = first_passes (unassigned_in p.uuid) w.licenses e in
          let (v, run, done) = apply_to_lem p email user l w here free lacks in
          (
            record v {
              tasks =
                  v.tasks
                  ++ auto_applied_license_email a.enterprise_customer_uuid (some email) ∷ [];
            },
            ground (arith, row, found, e, run),
            record { everyone = done.everyone; pool = done.pool; reported = done.reported },
          )
    ]

-- Where the agreement has no applicable plan, or the learner has a revoked, assigned or activated
-- license of it, or no license of it is unassigned, the view answers 422, or 200 to a learner who
-- has one and none that is revoked, and the database is as it was.
pub auto_apply_refused :
    (a : Agreement) (email user : ℕ) (w : World) (found : Option Plan)
    → IsLoaded w.agreements a
    → auto_applicable_subscription a.uuid w ≡ found
    → is_served email w found ≡ true
    → ((auto_apply a.uuid email user w).0 ≡ ok (if has_already email w found then 200 else 422))
      × ((auto_apply a.uuid email user w).1.db ≡ w.db)
unfolding auto_apply auto_apply_in check_subscription_licenses get_agreement
auto_apply_refused a email user w none row found h = ground (arith, row, found)
auto_apply_refused a email user w (some p) row found h = ground (arith, row, found)
