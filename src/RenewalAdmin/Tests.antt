-- ===== src/RenewalAdmin/Tests.antt =====
-- Requests to the endpoint on the sample database.
use license_manager.Base.{
  ◌≡◌, ◌≢◌, refl, false, not, ◌&&◌, none, some, [], ◌∷◌, arith, map, if◌then◌else◌,
}
use license_manager.Models.{Renewal, assigned_and_activated}
use license_manager.Store.{World, ok, err, database_error, key_error}
use license_manager.RenewalAdmin.{
  CreateRequest, UpdateRequest, create, update, destroy, process_renewal, validate_create,
}
use license_manager.RenewalAdmin.Create.{AreOneToOne, with_renewal, is_taken, new}
use license_manager.RenewalAdmin.Once.{answered_again, create_again, create-AreOneToOne}
use license_manager.Samples.{world}

-- The open plan is to be renewed into the capped one.
abbrev request : CreateRequest
request = record {
  prior_subscription_plan = 1;
  renewed_subscription_plan = some (some 2);
  salesforce_opportunity_id = some "00k123456789012345";
  number_of_licenses = 3;
  effective_date = 9000;
  renewed_expiration_date = 17000;
  renewed_plan_title = none;
  license_types_to_copy = assigned_and_activated;
  disable_auto_apply_licenses = false;
  exempt_from_batch_processing = false;
}

abbrev to_new_plan : CreateRequest
to_new_plan = record request { renewed_subscription_plan = none }

abbrev requested : World
requested = (create request world).1

-- The capped plan's renewal is requested where the open plan's is there.
abbrev second : CreateRequest
second = record to_new_plan { prior_subscription_plan = 2 }

abbrev one_renewal : World
one_renewal = with_renewal request world

create_again_example :
    let (response, after) = create second one_renewal in
    create second after ≡ (answered_again response, after)
create_again_example = create_again second one_renewal (omega arith, tt)

create-AreOneToOne_example :
    ((create second one_renewal).1 ≡ (
      if validate_create second one_renewal.plans && not (is_taken second one_renewal)
      then with_renewal second one_renewal
      else one_renewal))
    × ((create second one_renewal).0 ≢ err database_error)
    × AreOneToOne (create second one_renewal).1.renewals
create-AreOneToOne_example = create-AreOneToOne second one_renewal (omega arith, tt) (refl, tt)

is_created : map (λ (r : Renewal). r.id) requested.renewals ≡ 100 ∷ []
unfolding create
is_created = refl

-- A request that conflicts, and one that leaves out the plan that the log line reads
is_conflict :
    (create (record request { renewed_subscription_plan = some none }) requested).0
    ≡ ok (record { status = 422; renewal = some (new request world) })
unfolding create
is_conflict = refl

log_fails : (create to_new_plan requested).0 ≡ err key_error
unfolding create
log_fails = refl

too_short :
    (create (record request { salesforce_opportunity_id = some "00k" }) world).0
    ≡ ok (record { status = 400; renewal = none })
unfolding create
too_short = refl

abbrev no_update : UpdateRequest
no_update = record {
  has_unknown_fields = false;
  renewed_subscription_plan = none;
  salesforce_opportunity_id = none;
  number_of_licenses = none;
  effective_date = none;
  renewed_expiration_date = none;
  renewed_plan_title = none;
  license_types_to_copy = none;
  disable_auto_apply_licenses = none;
  exempt_from_batch_processing = none;
}

-- An update can run into the unique columns: two renewals, one of which is to go into the other's plan.
abbrev two_renewals : World
two_renewals = (create second requested).1

clashing :
    (update 101 (record no_update { renewed_subscription_plan = some (some 2) }) two_renewals).0
    ≡ err database_error
unfolding create update
clashing = refl

shortened :
    (update 100 (record no_update { renewed_expiration_date = some 9000 }) two_renewals).0
    ≡ ok (record { status = 400; renewal = none })
unfolding create update
shortened = refl

removed : map (λ (r : Renewal). r.id) (destroy 100 two_renewals).1.renewals ≡ 101 ∷ []
unfolding create destroy
removed = refl

unknown :
    (process_renewal (λ t. "2026") 7 9 requested).0 ≡ ok (record { status = 404; renewal = none })
unfolding process_renewal create
unknown = refl
