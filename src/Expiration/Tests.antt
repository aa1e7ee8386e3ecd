-- ===== src/Expiration/Tests.antt =====
-- The expiration theorems at concrete inputs.
use license_manager.Base.{◌≡◌, refl, false, true, none, some, [], ◌∷◌, arith, All, length}
use mathlib.Core.List.{reverse}
use license_manager.Models.{Renewal, assigned_and_activated}
use license_manager.Store.{World, ok}
use license_manager.Samples.{world, open_plan, capped_plan}
use license_manager.Provisioning.Batches.{concat, FitsIn}
use license_manager.Expiration.{
  Options, expire_subscription_plan, expire_subscriptions, get_renewal, get_origin_renewal,
  prior_renewals, future_renewals, prior_plan, is_expired_plan,
}
use license_manager.Expiration.Chains.{IsChain, renewals-IsChain}
use license_manager.Expiration.Calls.{
  calls_for, uuids_of, allocated_of, after_plan, expire_subscription_plan_whole,
}
use license_manager.Expiration.Whole.{IsProcessed, expire_subscriptions_whole}

expire_subscription_plan_whole_example :
    (concat (calls_for open_plan world) ≡ uuids_of (allocated_of open_plan world))
    × All (λ c. FitsIn 100 (length c)) (calls_for open_plan world)
    × (expire_subscription_plan (λ c. true) open_plan world
        ≡ (ok tt, after_plan (λ c. true) open_plan world))
expire_subscription_plan_whole_example = expire_subscription_plan_whole (λ c. true) open_plan world

-- The open plan was renewed into the capped one.
abbrev renewal : Renewal
renewal = record {
  id = 1;
  prior_subscription_plan = 1;
  renewed_subscription_plan = some 2;
  salesforce_opportunity_id = none;
  number_of_licenses = 3;
  effective_date = 1200;
  renewed_expiration_date = 1900;
  processed = true;
  processed_datetime = some 1300;
  renewed_plan_title = none;
  license_types_to_copy = assigned_and_activated;
  disable_auto_apply_licenses = false;
  exempt_from_batch_processing = false;
}

renewals-IsChain_example :
    IsChain
      (get_origin_renewal (renewal ∷ []))
      prior_plan
      2
      (reverse (prior_renewals (renewal ∷ []) 2))
    × IsChain
        (get_renewal (renewal ∷ []))
        (λ r. r.renewed_subscription_plan)
        2
        (future_renewals (renewal ∷ []) 2)
renewals-IsChain_example = renewals-IsChain (λ u. u) (renewal ∷ []) 2 (ground arith, tt)

abbrev renewed_world : World
renewed_world = record world {
  db = record world.db {
    renewals = renewal ∷ [];
    plans =
        record open_plan { expiration_date = 1200 }
        ∷ record capped_plan { expiration_date = 1900 }
        ∷ [];
  };
}

abbrev options : Options
options = record {
  expiration_date_from = 1100;
  expiration_date_to = 1950;
  subscription_uuids = [];
  force = false;
  dry_run = false;
}

expire_subscriptions_whole_example :
    (w' : World) × (expire_subscriptions (λ c. false) options renewed_world ≡ (ok tt, w'))
    × IsProcessed options renewed_world w'
unfolding is_expired_plan
expire_subscriptions_whole_example =
    expire_subscriptions_whole (λ c. false) options renewed_world (λ c. refl) (refl, tt) refl
      (omega arith) (omega arith) refl
