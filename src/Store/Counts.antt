-- ===== src/Store/Counts.antt =====
-- What the writes of the store do in closed form, and how they move the number of licenses that
-- pass a test.
use license_manager.Base.{
  ℕ, zero, suc, ◌+◌, ◌≡◌, refl, Bool, true, false, some, List, [], ◌∷◌, ◌++◌, map, arith, count,
  count-append, if◌then◌else◌,
}
use license_manager.Base.Table.{find, upsert}
use mathlib.Core.List.{append_assoc, append-nil}
use license_manager.Models.{
  License, new_license, EventName, license_created, license_revoked, revoked, license_keyed,
}
use license_manager.Store.Monad.{ok, Event, World, Action, Result, ◌>>◌}
use license_manager.Store.{
  track_license_changes, fresh_licenses, increase_num_licenses, clean, revoke, save_license,
  track_event,
}

-- Two actions, one after the other
pub then_runs :
    {A : Type 0} (m : Action Unit) (n : Action A) (w w1 : World) {x : Result A × World}
    → m w ≡ (ok tt, w1)
    → n w1 ≡ x
    → (m >> n) w ≡ x
then_runs m n w w1 e f = ground arith

-- The event that `track_event` sends about a license.
abbrev pub event_of : EventName → License → Event
event_of name l = record { name = name; user = l.lms_user_id; license = some l.uuid }

pub track_license_changes_lem :
    (name : EventName) (ls : List License) (w : World)
    → track_license_changes name ls w
      ≡ (ok tt, record w { events = w.events ++ map (event_of name) ls })
unfolding track_license_changes
track_license_changes_lem name [] w = rw append-nil
track_license_changes_lem name (l ∷ rest) w =
    rw (track_license_changes_lem name rest) (rw append_assoc)

-- The world after `n` licenses of a plan were created.
abbrev pub grown : ℕ → ℕ → World → World
grown plan n w =
    let created = fresh_licenses plan w.next_uuid n in
    record w {
      db = record w.db { licenses = w.licenses ++ created };
      events = w.events ++ map (event_of license_created) created;
      next_uuid = w.next_uuid + n;
    }

pub increase_num_licenses_lem :
    (plan n : ℕ) (w : World) → increase_num_licenses plan n w ≡ (ok tt, grown plan n w)
unfolding increase_num_licenses
increase_num_licenses_lem plan n w = rw track_license_changes_lem

module _ (p : License → Bool) (plan : ℕ) where
  pub count-fresh_licenses-true :
      ((u : ℕ) → p (new_license plan u) ≡ true)
      → (start n : ℕ) → count p (fresh_licenses plan start n) ≡ n
  unfolding fresh_licenses
  count-fresh_licenses-true h start zero = refl
  count-fresh_licenses-true h start (suc n) =
      rw (h start) (omega (arith, count-fresh_licenses-true h (start + 1) n))

  pub count-fresh_licenses-false :
      ((u : ℕ) → p (new_license plan u) ≡ false)
      → (start n : ℕ) → count p (fresh_licenses plan start n) ≡ 0
  unfolding fresh_licenses
  count-fresh_licenses-false h start zero = refl
  count-fresh_licenses-false h start (suc n) =
      rw (h start) (omega (arith, count-fresh_licenses-false h (start + 1) n))

-- The license as `revoke` writes it.
abbrev pub as_revoked : License → ℕ → License
as_revoked l now = record l { status = revoked; revoked_date = some now }

-- The world after an existing license was revoked.
abbrev pub with_revoked : License → World → World
with_revoked l w = record w {
  db = record w.db { licenses = upsert (as_revoked l w.now) w.licenses };
  events = w.events ++ event_of license_revoked (as_revoked l w.now) ∷ [];
}

-- A revoked license passes its validation, so revoking an existing license never raises.
pub revoke_lem :
    (l old : License) (w : World)
    → find l.uuid w.licenses ≡ some old
    → revoke l w ≡ (ok (as_revoked l w.now), with_revoked l w)
unfolding revoke save_license track_event clean
revoke_lem l old w e = ground arith

-- Creating licenses adds all of them to a count that takes new licenses, and none to any other.
pub count-grown :
    (p : License → Bool) (b : Bool) (plan n : ℕ) (w : World)
    → ((u : ℕ) → p (new_license plan u) ≡ b)
    → count p (grown plan n w).licenses ≡ count p w.licenses + (if b then n else 0)
count-grown p true plan n w h = omega (
  arith,
  count-append p w.licenses (fresh_licenses plan w.next_uuid n),
  count-fresh_licenses-true p plan h w.next_uuid n,
)
count-grown p false plan n w h = omega (
  arith,
  count-append p w.licenses (fresh_licenses plan w.next_uuid n),
  count-fresh_licenses-false p plan h w.next_uuid n,
)
