-- ===== src/Models/Plans.antt =====
-- `class SubscriptionPlan`: its fields and the properties that count its licenses (models.py).
use Prim.Native.String.{String}
use license_manager.Base.{
  ℕ, Bool, true, false, not, ◌&&◌, Option, none, some, List, count, select, ltb, leb, ◌==◌,
  if◌then◌else◌,
}
use license_manager.Base.Table.{Keyed}
use license_manager.Base.Integer.{ℤ, sub_ℕ, floor_sub}
use license_manager.Base.Float.{float, divide, multiply, ceil}
use license_manager.Models.Licenses.{License, is_unassigned, is_revoked, is_revocable}

pub record Plan : Type 0 where
  pub uuid : ℕ
  pub title : String
  pub start_date : ℕ
  pub expiration_date : ℕ
  pub expiration_processed : Bool
  pub enterprise_catalog_uuid : ℕ
  pub customer_agreement : ℕ
  pub is_active : Bool
  pub is_revocation_cap_enabled : Bool
  pub revoke_max_percentage : ℕ
  pub num_revocations_applied : ℕ
  pub salesforce_opportunity_id : Option String
  pub salesforce_opportunity_line_item : Option String
  pub product : Option ℕ
  pub for_internal_use_only : Bool
  pub can_freeze_unused_licenses : Bool
  pub last_freeze_timestamp : Option ℕ
  pub should_auto_apply_licenses : Option Bool
  pub desired_num_licenses : Option ℕ
  pub created : ℕ

instance abbrev pub plan_keyed : Keyed Plan
plan_keyed = record { key = λ p. p.uuid }

-- The rows of `plan.licenses`.
abbrev pub in_plan : ℕ → License → Bool
in_plan plan l = l.subscription_plan == plan

abbrev pub licenses_of : ℕ → List License → List License
licenses_of plan = select (in_plan plan)

abbrev pub unassigned_in : ℕ → License → Bool
unassigned_in plan l = in_plan plan l && is_unassigned l.status

abbrev pub revocable_in : ℕ → License → Bool
revocable_in plan l = in_plan plan l && is_revocable l.status

abbrev pub unrevoked_in : ℕ → License → Bool
unrevoked_in plan l = in_plan plan l && not (is_revoked l.status)

unfoldable pub num_licenses : ℕ → List License → ℕ
num_licenses plan = count (unrevoked_in plan)

unfoldable pub num_allocated_licenses : ℕ → List License → ℕ
num_allocated_licenses plan = count (revocable_in plan)

-- `ceil(self.num_licenses * (self.revoke_max_percentage / 100))`, in floating point
unfoldable pub num_revocations_allowed : ℕ → ℕ → ℕ
num_revocations_allowed total percentage =
    ceil (multiply (float total) (divide (float percentage) (float 100)))

-- `none` is positive infinity.
unfoldable pub num_revocations_remaining : Plan → List License → Option ℤ
num_revocations_remaining p licenses =
    if not p.is_revocation_cap_enabled
    then none
    else some (
        sub_ℕ (num_revocations_allowed (num_licenses p.uuid licenses) p.revoke_max_percentage)
          p.num_revocations_applied)

abbrev positive : Option ℤ → Bool
positive none = true
positive (some (ℤ.pos n)) = ltb 0 n
positive (some (ℤ.negsuc n)) = false

unfoldable pub has_revocations_remaining : Plan → List License → Bool
unfolding num_revocations_remaining
has_revocations_remaining p licenses =
    if not p.is_revocation_cap_enabled
    then true
    else positive (num_revocations_remaining p licenses)

-- `start_date <= now <= expiration_date`
unfoldable pub is_current : ℕ → Plan → Bool
is_current now p = leb p.start_date now && leb now p.expiration_date

-- Microseconds in a day, in an hour and in a second.
abbrev pub day : ℕ
day = 86400000000

abbrev pub second : ℕ
second = 1000000

abbrev pub hour : ℕ
hour = 3600000000

unfoldable pub days_until : ℕ → ℕ → ℤ
days_until now end_date = floor_sub day end_date now

unfoldable pub hours_until : ℕ → ℕ → ℤ
hours_until now effective_date = floor_sub hour effective_date now

-- `SubscriptionPlan.days_until_expiration`
unfoldable pub days_until_expiration : ℕ → Plan → ℤ
unfolding days_until
days_until_expiration now p = days_until now p.expiration_date
