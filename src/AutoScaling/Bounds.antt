-- ===== src/AutoScaling/Bounds.antt =====
-- Automatic scaling never takes a plan over the agreement's limit.
use license_manager.Base.{
  ℕ, ◌-◌, ◌≤◌, ◌≡◌, false, some, arith, max, ◌==◌, if◌then◌else◌, Bool-cases, inl, inr,
}
use license_manager.Base.Float.{multiply, divide, float, truncate_le}
use license_manager.Models.{Plan, Agreement, num_licenses, num_allocated_licenses, unrevoked_in}
use license_manager.Store.{World, ok}
use license_manager.Store.Counts.{grown, increase_num_licenses_lem, count-grown}
use license_manager.AutoScaling.{
  current_plan, is_short, number_licenses_to_add, scale_plan, scale_agreement,
}

number_licenses_to_add_le :
    (increment limit total : ℕ) → number_licenses_to_add increment limit total ≤ limit - total
unfolding number_licenses_to_add
number_licenses_to_add_le increment limit total =
    let wanted = multiply (float total) (divide (float increment) (float 100)) in
    ground (arith, truncate_le wanted (limit - total))

-- What scaling one agreement may do to the number of licenses of a plan: it does not shrink, and
-- only the agreement's current plan grows, to at most the limit.
pub record IsScaled (p : Plan) (limit : ℕ) (w w' : World) : Type 0 where
  pub grows : (q : ℕ) → num_licenses q w.licenses ≤ num_licenses q w'.licenses
  pub bounded :
      (q : ℕ)
      → num_licenses q w'.licenses
        ≤ (if p.uuid == q then max (num_licenses q w.licenses) limit else num_licenses q w.licenses)

IsScaled-same : (p : Plan) (limit : ℕ) (w : World) → IsScaled p limit w w
IsScaled-same p limit w = record { grows = λ q. omega arith; bounded = λ q. ground arith }

IsScaled-grown :
    (p : Plan) (limit n : ℕ) (w : World)
    → n ≤ limit - num_licenses p.uuid w.licenses
    → IsScaled p limit w (grown p.uuid n w)
unfolding num_licenses
IsScaled-grown p limit n w h = record {
  grows = λ q.
      ground (arith, count-grown (unrevoked_in q) (p.uuid == q) p.uuid n w (λ u. ground arith));
  bounded = λ q.
      ground (arith, count-grown (unrevoked_in q) (p.uuid == q) p.uuid n w (λ u. ground arith));
}

module _ (a : Agreement) (p : Plan) (threshold limit increment : ℕ)
    (has_threshold : a.auto_scaling_threshold_percentage ≡ some threshold)
    (has_limit : a.auto_scaling_max_licenses ≡ some limit)
    (has_increment : a.auto_scaling_increment_percentage ≡ some increment) where
  scale_plan_lem :
      (w : World) → (w' : World) × (scale_plan a p false w ≡ (ok tt, w')) × IsScaled p limit w w'
  unfolding scale_plan
  scale_plan_lem w =
      let total = num_licenses p.uuid w.licenses in
      let n = number_licenses_to_add increment limit total in
      let same = IsScaled-same p limit w in
      elim (Bool-cases (total == 0)) [
        | inl empty ↦ (w, ground arith, same)
        | inr some_left ↦
            elim (Bool-cases
              (is_short threshold total (num_allocated_licenses p.uuid w.licenses))) [
                | inl short ↦ (
                  grown p.uuid n w,
                  ground (arith, increase_num_licenses_lem p.uuid n w),
                  IsScaled-grown p limit n w (number_licenses_to_add_le increment limit total),
                )
                | inr enough ↦ (w, ground arith, same)
              ]
      ]

  -- Scaling an agreement whose three numbers are set and that has a current plan succeeds; no plan
  -- shrinks, no other plan grows, and the current plan does not grow beyond the agreement's limit.
  pub scale_agreement_bounded :
      (w : World)
      → current_plan a.uuid w ≡ some p
      → (w' : World) × (scale_agreement false a w ≡ (ok tt, w')) × IsScaled p limit w w'
  unfolding scale_agreement
  scale_agreement_bounded w e =
      let (w', run, scaled) = scale_plan_lem w in (w', ground (arith, e, run), scaled)
