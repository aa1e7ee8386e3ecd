-- ===== src/Retirement/Tests.antt =====
-- The retirement theorems at concrete inputs.
use license_manager.Base.{◌+◌, ◌≡◌, none, some, [], ◌∷◌, arith, All, map, count}
use license_manager.Models.{revoked}
use license_manager.Store.{World, ok}
use license_manager.Samples.{
  world, active_license, pending_license, free_license, capped_license, open_plan, capped_plan,
}
use license_manager.Retirement.{
  tables, offsets, expired_for_retirement, retire_old_licenses, post_retirement, retire_license,
  user_not_found,
}
use license_manager.Retirement.Pages.{offsets_ends}
use license_manager.Store.Changed.{changed}
use license_manager.Retirement.Whole.{
  retired, IsClean, retire_old_licenses_whole, retire_old_licenses-IsClean,
}
use license_manager.Retirement.Users.{belongs_to, is_kept, post_retirement_whole}

-- A plan that expired long ago, and one that runs, with a license revoked and one assigned long ago.
abbrev old_world : World
old_world = record world {
  db = record world.db {
    licenses =
        record active_license { subscription_plan = 1 }
        ∷ record pending_license { subscription_plan = 2; assigned_date = some 1000 }
        ∷ record capped_license { status = revoked; revoked_date = some 1500 }
        ∷ free_license
        ∷ [];
    plans = record open_plan { expiration_date = 1800 } ∷ capped_plan ∷ [];
  };
}

retire_old_licenses_whole_example :
    (w' : World) × (retire_old_licenses (some 2) old_world ≡ (ok tt, w'))
    × (tables w' ≡ tables old_world)
    × (w'.licenses ≡ map (retired (tables old_world)) old_world.licenses)
retire_old_licenses_whole_example = retire_old_licenses_whole (some 2) old_world (ground arith)

retire_old_licenses-IsClean_example :
    (w' : World) × (retire_old_licenses none old_world ≡ (ok tt, w'))
    × All (IsClean (tables w')) w'.licenses
retire_old_licenses-IsClean_example = retire_old_licenses-IsClean none old_world (ground arith)

post_retirement_whole_example :
    (w' : World) × (post_retirement (λ u. user_not_found) (some 41) (some 7) world ≡ (ok 404, w'))
    × (w'.licenses ≡ changed (belongs_to 41) retire_license world.licenses)
    × (count (is_kept 41) w'.licenses ≡ 0)
post_retirement_whole_example =
    post_retirement_whole (λ u. user_not_found) 41 7 world (ground arith)

offsets_ends_example :
    offsets (1 + 5) expired_for_retirement 2 none old_world
    ≡ offsets 1 expired_for_retirement 2 none old_world
unfolding expired_for_retirement
offsets_ends_example =
    offsets_ends expired_for_retirement 2 1 5 none old_world (omega arith) (ground arith)
      (ground arith)
