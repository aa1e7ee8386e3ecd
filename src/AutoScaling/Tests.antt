-- ===== src/AutoScaling/Tests.antt =====
-- Runs of the automatic scaling, and its theorem at concrete inputs.
use license_manager.Base.{◌≡◌, refl, false, some}
use license_manager.Base.Float.{exceeds, truncate, multiply, divide, float}
use license_manager.Store.{World, ok}
use license_manager.Samples.{world, open_plan, agreement}
use license_manager.AutoScaling.{scale_agreement, current_plan, number_licenses_to_add}
use license_manager.AutoScaling.Bounds.{IsScaled, scale_agreement_bounded}

-- Half of 3 licenses is 1.5, cut to 1.
half_of_three : number_licenses_to_add 50 5 3 ≡ 1
unfolding number_licenses_to_add exceeds truncate multiply divide float
half_of_three = refl

current_is_open : current_plan 5 world ≡ some open_plan
unfolding current_plan
current_is_open = refl

scale_agreement_bounded_example :
    (w' : World) × (scale_agreement false agreement world ≡ (ok tt, w'))
    × IsScaled open_plan 5 world w'
scale_agreement_bounded_example =
    scale_agreement_bounded agreement open_plan 50 5 50 refl refl refl world current_is_open
