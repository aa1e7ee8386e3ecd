-- ===== src/Renewal/Tests.antt =====
-- Runs of the renewal code, and its theorems at concrete inputs.
use Prim.Native.String.{String}
use license_manager.Base.{ℕ, ◌≡◌, refl, true, false, none, some, List, [], ◌∷◌, arith}
use license_manager.Models.{
  Plan, Renewal, plan_keyed, license_keyed, assigned_and_activated, ActorType, ActionSource,
}
use license_manager.Store.{World, ok, err, renewal_processing_error}
use license_manager.Samples.{world, open_plan, capped_plan}
use license_manager.Renewal.{
  Origin, renew_subscription, original_licenses_to_copy, toggle_auto_apply_licenses,
}
use license_manager.Renewal.Toggle.{IsToggled, with_plans, toggle_auto_apply_licenses_whole}
use license_manager.Renewal.Outcome.{renew_subscription_refused}

-- The open plan is renewed for three licenses, into a plan that is yet to be created.
abbrev renewal : Renewal
renewal = record {
  id = 8;
  prior_subscription_plan = 1;
  renewed_subscription_plan = none;
  salesforce_opportunity_id = none;
  number_of_licenses = 3;
  effective_date = 9000;
  renewed_expiration_date = 17000;
  processed = false;
  processed_datetime = none;
  renewed_plan_title = none;
  license_types_to_copy = assigned_and_activated;
  disable_auto_apply_licenses = false;
  exempt_from_batch_processing = false;
}

abbrev by_job : Origin
by_job = record {
  is_auto_renewed = true;
  actor_type = ActorType.system;
  actor_lms_user_id = none;
  source = ActionSource.renewal_job;
  correlation_id = some 60;
}

abbrev year : ℕ → String
year t = "2026"

abbrev renewing : World
renewing = record world { db = record world.db { renewals = renewal ∷ [] } }

-- One license is too few for the two that would be copied.
abbrev small : Renewal
small = record renewal { number_of_licenses = 1 }

renew_subscription_refused_example :
    ((renew_subscription year small open_plan none by_job renewing).0
      ≡ err renewal_processing_error)
    × ((renew_subscription year small open_plan none by_job renewing).1.db ≡ renewing.db)
unfolding original_licenses_to_copy
renew_subscription_refused_example =
    renew_subscription_refused year small open_plan by_job none renewing refl

toggle_auto_apply_licenses_whole_example :
    (after : List Plan) × (toggle_auto_apply_licenses 5 (some 2) world
      ≡ (ok tt, with_plans after world))
    × IsToggled 5 (some 2) world.plans after
toggle_auto_apply_licenses_whole_example =
    toggle_auto_apply_licenses_whole 5 (some 2) world (ground arith) (capped_plan, refl, refl)
