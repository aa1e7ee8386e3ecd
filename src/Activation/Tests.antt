-- ===== src/Activation/Tests.antt =====
-- Runs of the activation code, and its theorems at concrete inputs.
use license_manager.Base.{◌≡◌, refl, false, none, some, [], ◌∷◌, first, same, arith}
use license_manager.Models.{License, reset_to_unassigned, activated, is_assigned}
use license_manager.Store.{World, ok, save_license, get_plan, get_agreement}
use license_manager.Samples.{world, open_plan, agreement, active_license, pending_license}
use license_manager.Activation.{
  activate_by_key, post, get_licenses_by_email, license_for_activation,
  get_license_by_email_and_activation_key, clean_up_duplicate_licenses, keep_newest, reset_each,
  activate, track_and_notify,
}
use license_manager.Activation.Outcome.{activate_by_key_whole, post_refused, IsNamed}
use license_manager.Activation.Duplicates.{IsOnly}

-- A second license that was assigned to the same email later.
abbrev later_license : License
later_license = record pending_license {
  uuid = 13;
  assigned_date = some 1800;
  activation_key = some 53;
}

abbrev doubled : World
doubled = record world {
  db = record world.db { licenses = pending_license ∷ later_license ∷ active_license ∷ [] };
}

-- The older license's key activates the newer one.
newest_is_activated :
    (activate_by_key 32 42 52 doubled).0
    ≡ ok (record later_license {
      status = activated;
      activation_date = some 2000;
      lms_user_id = some 42;
    })
unfolding activate_by_key license_for_activation get_license_by_email_and_activation_key
    get_licenses_by_email clean_up_duplicate_licenses keep_newest reset_each save_license
    reset_to_unassigned activate track_and_notify get_plan get_agreement
newest_is_activated = refl

pending-IsNamed : IsNamed 32 52 doubled pending_license
unfolding IsNamed get_licenses_by_email
pending-IsNamed = refl

activate_by_key_whole_example :
    (c : License) × (w' : World) × (activate_by_key 32 42 52 doubled ≡ (ok c, w'))
    × IsOnly 1 32 c w'.licenses
    × (is_assigned c.status ≡ false)
activate_by_key_whole_example =
    activate_by_key_whole 32 42 52 doubled pending_license open_plan agreement (ground arith)
      pending-IsNamed refl refl refl refl

no_such_key :
    first (λ (x : License). same x.activation_key (some 99)) (get_licenses_by_email 32 doubled)
    ≡ none
unfolding get_licenses_by_email
no_such_key = refl

post_refused_example : post 32 42 99 doubled ≡ (ok 404, doubled)
post_refused_example = post_refused 32 42 99 doubled none no_such_key refl
