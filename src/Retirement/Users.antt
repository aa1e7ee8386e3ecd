-- ===== src/Retirement/Users.antt =====
-- What the retirement of one user leaves of the user's licenses.
use license_manager.Base.{
  ℕ, ◌≡◌, refl, ◌∙◌, Bool, not, ◌&&◌, ◌||◌, some, List, [], ◌∷◌, arith, count, select, same,
  is_some, ◌==◌, select-All,
}
use license_manager.Base.Table.{upsert}
use license_manager.Base.Table.Keys.{DistinctKeys, select-DistinctKeys, select-IsLoaded}
use license_manager.Base.Pages.{has_key, has_key-select}
use license_manager.Models.{License, license_keyed, is_revoked, clear_pii, reset_to_unassigned}
use license_manager.Store.{World, ok, pure, save_license, delete_source, clean}
use license_manager.Store.Counts.{then_runs}
use license_manager.Store.Changed.{changed, changed_same}
use license_manager.Retirement.{
  tables, Deletion, for_each, retire_license, retire_user_license, post_retirement, user_deleted,
  user_not_found, deletion_failed,
}
use license_manager.Retirement.Pass.{Retires, for_each-Writes}

abbrev pub belongs_to : ℕ → License → Bool
belongs_to user l = same l.lms_user_id (some user)

retire_user_license-Retires :
    (user : ℕ) → Retires (λ t. belongs_to user) (λ t. retire_license) retire_user_license
unfolding retire_license retire_user_license clear_pii reset_to_unassigned save_license clean
    delete_source
retire_user_license-Retires user = record {
  keeps = λ t l. ground arith;
  step = λ l w e b. record {
    after = record w {
      db = record w.db {
        licenses = upsert (retire_license l) w.licenses;
        sources = select (λ s. not (s.license == (retire_license l).uuid)) w.sources;
      };
    };
    runs = ground arith;
    same_tables = refl;
    written = refl;
  };
}

-- A license of the user that is not revoked, or still has an email
abbrev pub is_kept : ℕ → License → Bool
is_kept user l = belongs_to user l && (not (is_revoked l.status) || is_some l.user_email)

none_kept :
    (user : ℕ) (rows : List License)
    → count (is_kept user) (changed (belongs_to user) retire_license rows) ≡ 0
unfolding retire_license clear_pii reset_to_unassigned
none_kept user [] = refl
none_kept user (l ∷ rows) = ground (arith, none_kept user rows)

-- The status of the response
abbrev pub response : Deletion → ℕ
response user_deleted = 204
response user_not_found = 404
response deletion_failed = 500

-- Where no two licenses share a uuid, a retirement request with both fields answers by what the
-- deletion of the user did, and whatever that was, it has retired every license of the lms user and
-- written no other: a revoked one lost its email, any other became unassigned, so that the user has no
-- license left that is not revoked or has an email.
pub post_retirement_whole :
    (delete_user : ℕ → Deletion) (user username : ℕ) (w : World)
    → DistinctKeys w.licenses
    → (w' : World) × (post_retirement delete_user (some user) (some username) w
        ≡ (ok (response (delete_user username)), w'))
      × (w'.licenses ≡ changed (belongs_to user) retire_license w.licenses)
      × (count (is_kept user) w'.licenses ≡ 0)
unfolding post_retirement
post_retirement_whole delete_user user username w d =
    let ls = select (belongs_to user) w.licenses in
    let done =
      for_each-Writes (retire_user_license-Retires user) ls w (tables w) w.licenses refl refl d
        (select-DistinctKeys (belongs_to user) w.licenses d)
        (select-IsLoaded (belongs_to user) w.licenses d)
        (select-All (belongs_to user) w.licenses) in
    let written =
      done.written
      ∙ changed_same (λ l. has_key l.uuid ls) (belongs_to user) retire_license w.licenses
          (has_key-select (belongs_to user) w.licenses d) in
    (
      done.after,
      then_runs (for_each retire_user_license ls) (pure (response (delete_user username))) w
          done.after done.runs refl,
      written,
      rw written (none_kept user w.licenses),
    )
