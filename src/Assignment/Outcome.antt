-- ===== src/Assignment/Outcome.antt =====
-- What `assign` leaves: every email of the request has a license of the plan, and no other email has
-- more than before.
use license_manager.Base.{
  ℕ, ◌+◌, ◌≡◌, Bool, true, false, ◌||◌, List, arith, count, exists, length, max, ltb, if◌then◌else◌,
  to_ℕ, Bool-cases, inl, inr,
}
use license_manager.Base.Table.Keys.{IsLoaded}
use license_manager.Models.{
  Plan, license_keyed, plan_keyed, agreement_keyed, unassigned_in, num_licenses,
}
use license_manager.Store.{World, is_lock_of, ok, get_plan}
use license_manager.Provisioning.{acquire_subscription_plan_lock, release_subscription_plan_lock}
use license_manager.Provisioning.Whole.{release_all}
use license_manager.Assignment.{
  entry_keyed, AssignRequest, entries_in, requested_entries, emails_of, taken_by,
  trim_already_associated_emails, assign_emails, refusal, assign_missing, is_valid_request,
  assign_unlocked, assign,
}
use license_manager.Assignment.Counted.{asks}

-- What a world that is left by an assignment shares with the one before: the licenses are given, and
-- the plans and the locks are as they were.
record IsAfter (before after : World) : Type 0 where
  licenses : after.licenses ≡ before.licenses
  plans : after.plans ≡ before.plans
  locks : after.locks ≡ before.locks

-- The emails that are asked for, and those that have no license of the plan yet.
abbrev pub wanted : AssignRequest → List ℕ
wanted req = emails_of (requested_entries req)

abbrev pub lacking : AssignRequest → ℕ → World → List ℕ
lacking req plan w = trim_already_associated_emails plan (wanted req) w

-- What an assignment leaves. Every email that the request asks for has a license of the plan that is
-- assigned or activated: the ones it had, or one that was unassigned. Other emails have what they
-- had. No plan reports another number of licenses.
pub record IsAssignment (req : AssignRequest) (plan : ℕ) (w w' : World) : Type 0 where
  pub everyone :
      (e : ℕ)
      → count (taken_by plan e) w'.licenses
        ≡ max (count (taken_by plan e) w.licenses) (to_ℕ (exists (asks e) (entries_in req)))
  pub pool :
      count (unassigned_in plan) w'.licenses + length (lacking req plan w)
      ≡ count (unassigned_in plan) w.licenses
  pub reported : (u : ℕ) → num_licenses u w'.licenses ≡ num_licenses u w.licenses
  pub locks : w'.locks ≡ w.locks

-- Where a plan that exists has fewer unassigned licenses than there are emails that lack one, or
-- its lock is taken, the view answers 400 or 423 and the world is as it was.
pub assign_refused :
    (req : AssignRequest) (p : Plan) (w : World) (taken : Bool)
    → IsLoaded w.plans p
    → exists (is_lock_of p.uuid) w.locks ≡ taken
    → (taken || ltb (count (unassigned_in p.uuid) w.licenses) (length (lacking req p.uuid w)))
      ≡ true
    → assign req p.uuid w ≡ (ok (refusal (if taken then 423 else 400)), w)
unfolding assign get_plan acquire_subscription_plan_lock release_subscription_plan_lock
    trim_already_associated_emails assign_unlocked assign_missing assign_emails
assign_refused req p w true row lock h = ground (arith, row, lock)
assign_refused req p w false row lock h = elim (Bool-cases (is_valid_request req)) [
  | inl e ↦ ground (arith, e, row, lock, release_all p.uuid w.locks)
  | inr e ↦ ground (arith, e, row, lock, release_all p.uuid w.locks)
]
