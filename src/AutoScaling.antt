-- ===== src/AutoScaling.antt =====
-- Plans that grow by themselves: the command `process_auto_scalable_plans`
-- (subscriptions/management/commands). An agreement for which it is enabled has its three numbers
-- set; Python raises a TypeError for a null one, which stops the command.
pub mod Bounds
mod Tests
use license_manager.Base.{
  ℕ, ◌-◌, Bool, true, false, not, ◌&&◌, Option, none, some, List, [], ◌∷◌, select, first, order_by,
  min, leb, ltb, ◌==◌, if◌then◌else◌,
}
use license_manager.Base.Float.{float, divide, multiply, truncate, exceeds}
use license_manager.Models.{
  Plan, Agreement, License, is_current, num_licenses, num_allocated_licenses,
}
use license_manager.Store.{
  Action, World, Result, ok, err, Error, pure, raise, gets, or_raise, type_error,
  increase_num_licenses, ◌>>=◌, ◌>>◌,
}

-- `agreement.subscriptions.filter(...).order_by('-start_date').first()`
unfoldable pub current_plan : ℕ → World → Option Plan
unfolding is_current
current_plan agreement w =
    first (λ p. true)
      (order_by (λ p q. leb q.start_date p.start_date)
        (select (λ p. p.customer_agreement == agreement && p.is_active && is_current w.now p)
          w.plans))

-- `(unallocated / num_licenses) * 100.0 < 100.0 - threshold`, in floating point; the threshold is at
-- most 100 and the difference is exact.
unfoldable pub is_short : ℕ → ℕ → ℕ → Bool
is_short threshold total allocated =
    ltb (multiply (divide (float (total - allocated)) (float total)) (float 100))
      (float (100 - threshold))

-- `int(min(num_licenses * (increment / 100.0), max_licenses - num_licenses))`: `min` gives the int
-- itself where it is the smaller one. Where the limit is exceeded the number is negative and `range`
-- makes no license of it; here it is 0.
unfoldable pub number_licenses_to_add : ℕ → ℕ → ℕ → ℕ
number_licenses_to_add increment limit total =
    let wanted = multiply (float total) (divide (float increment) (float 100)) in
    if exceeds wanted (limit - total) then limit - total else truncate wanted

unfoldable pub scale_plan : Agreement → Plan → Bool → Action Unit
scale_plan a p dry_run = do
  total ← gets (λ w. num_licenses p.uuid w.licenses)
  allocated ← gets (λ w. num_allocated_licenses p.uuid w.licenses)
  if total == 0 then pure tt else do
    threshold ← or_raise a.auto_scaling_threshold_percentage type_error
    if not (is_short threshold total allocated) then pure tt else do
      limit ← or_raise a.auto_scaling_max_licenses type_error
      increment ← or_raise a.auto_scaling_increment_percentage type_error
      if dry_run
          then pure tt
          else increase_num_licenses p.uuid (number_licenses_to_add increment limit total)

-- One turn of the loop
unfoldable pub scale_agreement : Bool → Agreement → Action Unit
scale_agreement dry_run a = do
  found ← gets (current_plan a.uuid)
  elim found [ none ↦ pure tt | some p ↦ scale_plan a p dry_run ]

unfoldable pub scale_each : Bool → List Agreement → Action Unit
scale_each dry_run [] = pure tt
scale_each dry_run (a ∷ rest) = scale_agreement dry_run a >> scale_each dry_run rest

-- `Command.handle`
unfoldable pub process_auto_scalable_plans : Bool → Action Unit
process_auto_scalable_plans dry_run = do
  enabled ← gets (λ w. select (λ a. a.enable_auto_scaling_of_current_plan) w.agreements)
  scale_each dry_run enabled
