-- ===== src/Revocation/Tests.antt =====
-- Runs of the revocation code, and its theorems at concrete inputs.
use license_manager.Base.{
  ◌≡◌, refl, true, arith, [], ◌∷◌, List, length, count, if◌then◌else◌, not, ◌&&◌,
}
use license_manager.Models.{
  num_licenses, has_revocations_remaining, is_activated, is_revocable, revocable_in,
}
use license_manager.Store.{ok, err, revocation_limit_reached, status_not_revocable}
use license_manager.Store.Sound.{IsSound}
use license_manager.Revocation.{Revocation, revoke_license, revoke_plan}
use license_manager.Revocation.Effect.{revocation_of, revoked_world, revoke_license_outcome}
use license_manager.Revocation.Pool.{num_licenses-revoke_license}
use license_manager.Revocation.Cap.{IsWithinCap, revoke_license-IsWithinCap, revoke_license-IsSound}
use license_manager.Revocation.Whole.{IsReplaced, revoke_plan_whole}
use license_manager.Revocation.Views.{BulkRequest, bulk_revoke}
use license_manager.Revocation.Views.Kept.{IsKept, bulk_revoke-IsKept}
use license_manager.Samples.{
  world, open_plan, capped_plan, active_license, capped_license, free_license,
}

world-IsSound : IsSound world
world-IsSound = ground arith

revoke_license_outcome_example : revoke_license free_license world ≡ (
    if not (has_revocations_remaining open_plan world.licenses) && is_activated free_license.status
    then (err revocation_limit_reached, world)
    else if not (is_revocable free_license.status)
    then (err status_not_revocable, world)
    else (ok (revocation_of free_license world), revoked_world free_license open_plan world))
revoke_license_outcome_example = revoke_license_outcome free_license open_plan world refl refl

-- A license that is not assigned cannot be revoked.
revoke_free : revoke_license free_license world ≡ (err status_not_revocable, world)
unfolding has_revocations_remaining
revoke_free = revoke_license_outcome free_license open_plan world refl refl

num_licenses-revoke_license_example :
    num_licenses 2 (revoke_license capped_license world).1.licenses ≡ num_licenses 2 world.licenses
num_licenses-revoke_license_example =
    num_licenses-revoke_license capped_license capped_plan world 2 refl refl

capped-IsWithinCap : IsWithinCap 2 world
unfolding num_licenses
capped-IsWithinCap = record { within = λ p e h. ground arith }

revoke_license-IsWithinCap_example : IsWithinCap 2 (revoke_license capped_license world).1
revoke_license-IsWithinCap_example =
    revoke_license-IsWithinCap capped_license capped_plan world refl refl 2 capped-IsWithinCap

revoke_license-IsSound_example : IsSound (revoke_license active_license world).1
revoke_license-IsSound_example =
    revoke_license-IsSound active_license open_plan world refl refl world-IsSound

revoke_plan_whole_example :
    (results : List Revocation) × ((revoke_plan 1 world).0 ≡ ok results)
    × (length results ≡ 2)
    × (count (revocable_in 1) (revoke_plan 1 world).1.licenses ≡ 0)
    × IsReplaced 1 2 world (revoke_plan 1 world).1
revoke_plan_whole_example = revoke_plan_whole 1 open_plan world world-IsSound refl refl

abbrev request : BulkRequest
request = record { user_emails = 31 ∷ 99 ∷ []; filters = λ l. true; user = 7 }

bulk_revoke-IsKept_example : IsKept world (bulk_revoke request 1 world).1
bulk_revoke-IsKept_example = bulk_revoke-IsKept request 1 world world-IsSound
