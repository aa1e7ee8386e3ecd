-- ===== src/Assignment/Tests.antt =====
-- Runs of the assignment code, and its theorems at concrete inputs.
use license_manager.Base.{◌≡◌, refl, true, false, none, [], ◌∷◌}
use license_manager.Models.{license_keyed, plan_keyed}
use license_manager.Store.{ok}
use license_manager.Samples.{world, open_plan}
use license_manager.Assignment.{
  AssignRequest, assign, refusal, requested_entries, dict_from, trim_already_associated_emails,
}
use license_manager.Assignment.Outcome.{lacking, assign_refused}

-- Email 31 has a license of the open plan already, 34 comes twice.
abbrev request : AssignRequest
request = record {
  user_emails = 31 ∷ 34 ∷ 34 ∷ [];
  user_sfids = none;
  notify_users = true;
  user = 7;
}

only_34_lacks : lacking request 1 world ≡ 34 ∷ []
unfolding requested_entries dict_from trim_already_associated_emails
only_34_lacks = refl

-- Two emails lack a license, and the plan has one.
abbrev large : AssignRequest
large = record request { user_emails = 34 ∷ 35 ∷ [] }

assign_refused_example : assign large 1 world ≡ (ok (refusal 400), world)
unfolding requested_entries dict_from trim_already_associated_emails
assign_refused_example = assign_refused large open_plan world false refl refl refl
