-- ===== src/AutoApply/Tests.antt =====
-- Runs of the automatic application, and its theorems at concrete inputs.
use license_manager.Base.{◌≡◌, refl, some, arith}
use license_manager.Store.{World, ok}
use license_manager.Samples.{world, open_plan, agreement}
use license_manager.AutoApply.{auto_apply, auto_applicable_subscription}
use license_manager.AutoApply.Outcome.{IsApplied, auto_apply_whole, auto_apply_refused}

open_is_applicable : auto_applicable_subscription 5 world ≡ some open_plan
unfolding auto_applicable_subscription
open_is_applicable = refl

auto_apply_whole_example :
    (w' : World) × (auto_apply 5 36 46 world ≡ (ok 200, w')) × IsApplied 1 36 world w'
auto_apply_whole_example =
    auto_apply_whole agreement open_plan 36 46 world (ground arith) refl open_is_applicable refl
      refl (ground arith)

-- Email 31 has an activated license already.
auto_apply_refused_example :
    ((auto_apply 5 31 41 world).0 ≡ ok 200) × ((auto_apply 5 31 41 world).1.db ≡ world.db)
auto_apply_refused_example =
    auto_apply_refused agreement 31 41 world (some open_plan) refl open_is_applicable refl
