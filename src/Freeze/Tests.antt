-- ===== src/Freeze/Tests.antt =====
-- The freeze theorem at a concrete input.
use license_manager.Base.{◌≡◌, refl}
use license_manager.Store.{World, ok}
use license_manager.Samples.{world, open_plan}
use license_manager.Freeze.{delete_unused_licenses_post_freeze}
use license_manager.Freeze.Outcome.{IsFrozen, delete_unused_licenses_post_freeze_whole}

delete_unused_licenses_post_freeze_whole_example :
    (w' : World) × (delete_unused_licenses_post_freeze open_plan world ≡ (ok tt, w'))
    × IsFrozen open_plan world w'
delete_unused_licenses_post_freeze_whole_example =
    delete_unused_licenses_post_freeze_whole open_plan world refl refl
