-- ===== src/Renewal/Outcome.antt =====
-- `renew_subscription`: what it refuses, and what a renewal that is not refused leaves.
use Prim.Native.String.{String}
use license_manager.Base.{
  ℕ, ◌≡◌, Bool, true, not, ◌||◌, some, none, Option, arith, exists, length, ltb,
}
use license_manager.Models.{
  Plan, Renewal, license_keyed, plan_keyed, renewal_keyed, agreement_keyed, is_unassigned,
  licenses_of,
}
use license_manager.Store.{World, err, renewal_processing_error}
use license_manager.Renewal.{Origin, renew_subscription, original_licenses_to_copy, new_plan}

-- The future plan, and the world in which the code looks at its licenses.
abbrev pub planned : (ℕ → String) → Renewal → Plan → Option Plan → World → Plan
planned year r original none w = new_plan year r original w.next_uuid w.now
planned year r original (some p) w = p

abbrev pub too_few : Renewal → Plan → World → Bool
too_few r original w =
    ltb r.number_of_licenses
      (length (original_licenses_to_copy original.uuid r.license_types_to_copy w))

-- The future plan has licenses that are taken, or more than were asked for.
abbrev pub unfit : Renewal → Plan → World → Bool
unfit r future w =
    exists (λ l. not (is_unassigned l.status)) (licenses_of future.uuid w.licenses)
    || ltb r.number_of_licenses (length (licenses_of future.uuid w.licenses))

module _ (year : ℕ → String) (r : Renewal) (original : Plan) (by : Origin) where
  -- A renewal for fewer licenses than are to be copied, or into a plan whose licenses are not all
  -- unassigned or are more than were asked for, is refused and leaves the database as it was.
  pub renew_subscription_refused :
      (renewed : Option Plan) (w : World)
      → (too_few r original w || unfit r (planned year r original renewed w) w) ≡ true
      → ((renew_subscription year r original renewed by w).0 ≡ err renewal_processing_error)
        × ((renew_subscription year r original renewed by w).1.db ≡ w.db)
  unfolding renew_subscription original_licenses_to_copy
  renew_subscription_refused none w h = ground arith
  renew_subscription_refused (some p) w h = ground arith
