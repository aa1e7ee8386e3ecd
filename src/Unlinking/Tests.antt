-- ===== src/Unlinking/Tests.antt =====
-- The theorem on unlinking at a concrete input.
use license_manager.Base.{ℕ, ◌*◌, ◌≡◌, refl, false, true, Option, List, select}
use license_manager.Models.{day}
use license_manager.Store.{World, ok}
use license_manager.Samples.{world, agreement}
use license_manager.Provisioning.Batches.{concat}
use license_manager.Unlinking.{unlink_expired_licenses}
use license_manager.Unlinking.Notes.{emails_of, noted}
use license_manager.Unlinking.Whole.{to_unlink, unlink_expired_licenses_whole}

-- A year later, when both plans have long expired
abbrev late : World
late = record world { now = 365 * day }

unlink_expired_licenses_whole_example :
    (calls : List (List (Option ℕ))) × (concat calls
      ≡ emails_of (select (to_unlink 500 agreement late) late.licenses))
    × (unlink_expired_licenses (λ m. false) 500 true late
        ≡ (ok tt, noted 500 calls (select (to_unlink 500 agreement late) late.licenses) late))
    × (unlink_expired_licenses
          (λ m. false)
          500
          true
          (noted 500 calls (select (to_unlink 500 agreement late) late.licenses) late)
        ≡ (ok tt, noted 500 calls (select (to_unlink 500 agreement late) late.licenses) late))
unlink_expired_licenses_whole_example =
    unlink_expired_licenses_whole (λ m. false) 500 agreement late (λ m. refl) refl
