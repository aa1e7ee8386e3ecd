-- ===== src/Retirement/Whole.antt =====
-- What `retire_old_licenses` leaves of every license.
use license_manager.Base.{
  ℕ, zero, suc, ◌≡◌, ◌<◌, refl, ◌∙◌, true, false, none, some, Option, List, [], ◌∷◌, arith, map,
  select, not, ◌++◌, if◌then◌else◌, ◌==◌, All,
}
use license_manager.Base.Table.{upsert}
use license_manager.Base.Table.Keys.{DistinctKeys, IsLoaded}
use license_manager.Models.{
  License, license_keyed, clear_pii, reset_to_unassigned, license_revoked, is_revoked,
}
use license_manager.Store.{World, ok, save_license, track_event, delete_source, clean, ◌>>◌}
use license_manager.Store.Counts.{event_of, then_runs}
use license_manager.Store.Changed.{changed, changed-DistinctKeys}
use license_manager.Retirement.{
  Tables, tables, retire_batches, retire_expired, retire_revoked, retire_assigned, as_expired,
  expired_for_retirement, revoked_for_retirement, assigned_for_retirement, retire_old_licenses,
  batch_size_of,
}
use license_manager.Retirement.Pass.{Retires}
use license_manager.Retirement.Batches.{retire_batches-Writes}

-- A license that was saved lost its source.
abbrev saved_without_source : License → World → World
saved_without_source l w = record w {
  db = record w.db {
    licenses = upsert l w.licenses;
    sources = select (λ s. not (s.license == l.uuid)) w.sources;
  };
}

expired-Retires : Retires expired_for_retirement (λ t. as_expired t.now) retire_expired
unfolding as_expired clear_pii retire_expired save_license clean track_event delete_source
expired-Retires = record {
  keeps = λ t l. refl;
  step = λ l w e b. record {
    after = record (saved_without_source (as_expired w.now l) w) {
      events = w.events ++ event_of license_revoked (as_expired w.now l) ∷ [];
    };
    runs = ground arith;
    same_tables = refl;
    written = refl;
  };
}

revoked_for_retirement_status :
    (t : Tables) (l : License) → revoked_for_retirement t l ≡ true → is_revoked l.status ≡ true
unfolding revoked_for_retirement
revoked_for_retirement_status t l b = ground arith

retire_revoked_lem :
    (l : License) (w : World)
    → IsLoaded w.licenses l
    → is_revoked l.status ≡ true
    → retire_revoked l w ≡ (ok tt, saved_without_source (clear_pii l) w)
unfolding clear_pii retire_revoked save_license clean delete_source
retire_revoked_lem l w e b = ground arith

revoked-Retires : Retires revoked_for_retirement (λ t. clear_pii) retire_revoked
unfolding clear_pii
revoked-Retires = record {
  keeps = λ t l. refl;
  step = λ l w e b. record {
    after = saved_without_source (clear_pii l) w;
    runs = retire_revoked_lem l w e (revoked_for_retirement_status (tables w) l b);
    same_tables = refl;
    written = refl;
  };
}

assigned-Retires : Retires assigned_for_retirement (λ t. reset_to_unassigned) retire_assigned
unfolding reset_to_unassigned retire_assigned save_license clean delete_source
assigned-Retires = record {
  keeps = λ t l. refl;
  step = λ l w e b. record {
    after = saved_without_source (reset_to_unassigned l) w;
    runs = ground arith;
    same_tables = refl;
    written = refl;
  };
}

-- What a license becomes: the first query that finds it decides.
abbrev pub retired : Tables → License → License
retired t l =
    if expired_for_retirement t l
    then as_expired t.now l
    else if revoked_for_retirement t l
    then clear_pii l
    else if assigned_for_retirement t l
    then reset_to_unassigned l
    else l

revoked_without_email :
    (t : Tables) (l : License) → revoked_for_retirement t (as_expired t.now l) ≡ false
unfolding revoked_for_retirement as_expired clear_pii
revoked_without_email t l = ground arith

assigned_without_email :
    (t : Tables) (l : License) → assigned_for_retirement t (as_expired t.now l) ≡ false
unfolding assigned_for_retirement as_expired clear_pii
assigned_without_email t l = ground arith

assigned_after_clear_pii :
    (t : Tables) (l : License) → assigned_for_retirement t (clear_pii l) ≡ false
unfolding assigned_for_retirement clear_pii
assigned_after_clear_pii t l = ground arith

three_passes :
    (t : Tables) (rows : List License)
    → changed (assigned_for_retirement t) reset_to_unassigned (
        changed
          (revoked_for_retirement t)
          clear_pii
          (changed (expired_for_retirement t) (as_expired t.now) rows))
      ≡ map (retired t) rows
three_passes t [] = refl
three_passes t (x ∷ rows) = ground (
  arith,
  revoked_without_email t x,
  assigned_without_email t x,
  assigned_after_clear_pii t x,
  three_passes t rows,
)

batch_size_of-pos : (batch_size : Option ℕ) → 0 < batch_size_of batch_size
batch_size_of-pos none = omega arith
batch_size_of-pos (some zero) = omega arith
batch_size_of-pos (some (suc n)) = omega arith

-- With any batch size, the command succeeds where no two licenses share a uuid. It leaves the plans,
-- the agreements and the time, and writes each license by the first query that found it before: a
-- license of a plan past its purge date loses its email and is revoked now, else a revoked one past
-- its date loses its email, else an assigned one past its date becomes unassigned; every other license
-- stays as it was.
pub retire_old_licenses_whole :
    (batch_size : Option ℕ) (w : World)
    → DistinctKeys w.licenses
    → (w' : World) × (retire_old_licenses batch_size w ≡ (ok tt, w'))
      × (tables w' ≡ tables w)
      × (w'.licenses ≡ map (retired (tables w)) w.licenses)
unfolding retire_old_licenses
retire_old_licenses_whole batch_size w d =
    let n = batch_size_of batch_size in
    let pos = batch_size_of-pos batch_size in
    let t = tables w in
    let rows1 = changed (expired_for_retirement t) (as_expired t.now) w.licenses in
    let rows2 = changed (revoked_for_retirement t) clear_pii rows1 in
    let first =
      retire_batches-Writes expired_for_retirement (λ t. as_expired t.now) retire_expired
        expired-Retires n pos w t w.licenses refl refl d in
    let d1 =
      changed-DistinctKeys (expired_for_retirement t) (as_expired t.now) w.licenses
        (expired-Retires.keeps t) d in
    let second =
      retire_batches-Writes revoked_for_retirement (λ t. clear_pii) retire_revoked revoked-Retires n
        pos first.after t rows1 first.same_tables first.written d1 in
    let third =
      retire_batches-Writes assigned_for_retirement (λ t. reset_to_unassigned) retire_assigned
        assigned-Retires n pos second.after t rows2 second.same_tables second.written
        (changed-DistinctKeys (revoked_for_retirement t) clear_pii rows1 (revoked-Retires.keeps t)
          d1) in
    (
      third.after,
      then_runs (retire_batches expired_for_retirement n retire_expired)
          (retire_batches revoked_for_retirement n retire_revoked
            >> retire_batches assigned_for_retirement n retire_assigned)
          w first.after first.runs
          (then_runs (retire_batches revoked_for_retirement n retire_revoked)
            (retire_batches assigned_for_retirement n retire_assigned) first.after second.after
            second.runs third.runs),
      third.same_tables,
      third.written ∙ three_passes t w.licenses,
    )

-- What none of the three queries finds.
pub record IsClean (t : Tables) (l : License) : Type 0 where
  pub not_expired : expired_for_retirement t l ≡ false
  pub not_revoked : revoked_for_retirement t l ≡ false
  pub not_assigned : assigned_for_retirement t l ≡ false

retired-IsClean : (t : Tables) (l : License) → IsClean t (retired t l)
unfolding expired_for_retirement revoked_for_retirement assigned_for_retirement as_expired clear_pii
    reset_to_unassigned
retired-IsClean t l = record {
  not_expired = ground arith;
  not_revoked = ground arith;
  not_assigned = ground arith;
}

map-IsClean : (t : Tables) (rows : List License) → All (IsClean t) (map (retired t) rows)
map-IsClean t [] = tt
map-IsClean t (l ∷ rows) = (retired-IsClean t l, map-IsClean t rows)

-- Where no two licenses share a uuid, the command with any batch size succeeds and leaves no license
-- that one of its queries finds at that time: no license of a plan past its purge date keeps an email,
-- and outside the plans for internal use no revoked or assigned one past its date does.
pub retire_old_licenses-IsClean :
    (batch_size : Option ℕ) (w : World)
    → DistinctKeys w.licenses
    → (w' : World) × (retire_old_licenses batch_size w ≡ (ok tt, w'))
      × All (IsClean (tables w')) w'.licenses
retire_old_licenses-IsClean batch_size w d =
    let (w', runs, same_tables, written) = retire_old_licenses_whole batch_size w d in
    (w', runs, rw same_tables (rw written (map-IsClean (tables w) w.licenses)))
