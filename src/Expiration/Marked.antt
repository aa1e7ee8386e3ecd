-- ===== src/Expiration/Marked.antt =====
-- The plans that the command marks when the enterprise API answers.
use license_manager.Base.{
  ℕ, zero, suc, ◌≡◌, refl, sym, ap, ◌∙◌, Bool, true, false, ◌||◌, some, List, [], ◌∷◌, ◌++◌, inl,
  inr, arith, All, All-first, All-append, exists, map, length, same, is_some, if◌then◌else◌, ◌==◌,
  Option-cases,
}
use mathlib.Core.List.{reverse, reverse-cons}
use license_manager.Base.Table.{find}
use license_manager.Models.{Plan, Renewal, plan_keyed}
use license_manager.Store.{World, Action, ok, get_plan, ◌>>◌}
use license_manager.Store.Counts.{then_runs}
use license_manager.Expiration.{
  with_mark, get_origin_renewal, prior_renewals, prior_plan, follow, expire_subscription_plan,
  expire_priors,
}
use license_manager.Expiration.Chains.{follow-none, follow_step}
use license_manager.Expiration.Calls.{calls_for, after_plan, expire_subscription_plan_lem}

abbrev pub is_in : List ℕ → ℕ → Bool
is_in us u = exists (λ v. v == u) us

-- A plan after those with these uuids were marked
abbrev pub mark_in : List ℕ → Plan → Plan
mark_in us p = if is_in us p.uuid then record p { expiration_processed = true } else p

-- The plans with these uuids were marked, and every license and renewal is as it was.
pub record Marks (us : List ℕ) (w w' : World) : Type 0 where
  pub plans_marked : w'.plans ≡ map (mark_in us) w.plans
  pub licenses_kept : w'.licenses ≡ w.licenses
  pub renewals_kept : w'.renewals ≡ w.renewals
  pub now_kept : w'.now ≡ w.now

pub is_in-append : (us vs : List ℕ) (u : ℕ) → is_in (us ++ vs) u ≡ (is_in us u || is_in vs u)
is_in-append [] vs u = refl
is_in-append (x ∷ us) vs u = ground (arith, is_in-append us vs u)

mark_in-mark_in :
    (us vs : List ℕ) (ps : List Plan)
    → map (mark_in vs) (map (mark_in us) ps) ≡ map (mark_in (us ++ vs)) ps
mark_in-mark_in us vs [] = refl
mark_in-mark_in us vs (p ∷ ps) = ground (arith, is_in-append us vs p.uuid, mark_in-mark_in us vs ps)

mark_in_none : (ps : List Plan) → map (mark_in []) ps ≡ ps
mark_in_none [] = refl
mark_in_none (p ∷ ps) = ap (◌∷◌ p) (mark_in_none ps)

mark_in_one : (u : ℕ) (ps : List Plan) → map (with_mark u) ps ≡ map (mark_in (u ∷ [])) ps
mark_in_one u [] = refl
mark_in_one u (p ∷ ps) = ground (arith, mark_in_one u ps)

find-mark_in :
    (us : List ℕ) (u : ℕ) (ps : List Plan)
    → is_some (find u ps) ≡ true
    → is_some (find u (map (mark_in us) ps)) ≡ true
find-mark_in us u [] h = cc
find-mark_in us u (p ∷ ps) h = ground (arith, find-mark_in us u ps)

pub Marks-none : (w : World) → Marks [] w w
Marks-none w = record {
  plans_marked = sym (mark_in_none w.plans);
  licenses_kept = refl;
  renewals_kept = refl;
  now_kept = refl;
}

pub Marks-then :
    (us vs : List ℕ) (w w1 w2 : World) → Marks us w w1 → Marks vs w1 w2 → Marks (us ++ vs) w w2
Marks-then us vs w w1 w2 m n = record {
  plans_marked =
      n.plans_marked ∙ ap (map (mark_in vs)) m.plans_marked ∙ mark_in-mark_in us vs w.plans;
  licenses_kept = n.licenses_kept ∙ m.licenses_kept;
  renewals_kept = n.renewals_kept ∙ m.renewals_kept;
  now_kept = n.now_kept ∙ m.now_kept;
}

none_fail :
    (client : List ℕ → Bool) (cs : List (List ℕ))
    → ((c : List ℕ) → client c ≡ false)
    → exists client cs ≡ false
none_fail client [] h = refl
none_fail client (c ∷ cs) h = ground (arith, h c, none_fail client cs h)

-- The plan exists in the database.
abbrev pub HasPrior : List Plan → Renewal → Type 0
HasPrior plans r = is_some (find r.prior_subscription_plan plans) ≡ true

pub HasPrior-mark_in :
    (us : List ℕ) (plans plans' : List Plan) (rs : List Renewal)
    → plans' ≡ map (mark_in us) plans
    → All (HasPrior plans) rs
    → All (HasPrior plans') rs
HasPrior-mark_in us plans plans' [] e h = tt
HasPrior-mark_in us plans plans' (r ∷ rs) e h = (
  rw e (find-mark_in us r.prior_subscription_plan plans h.0),
  HasPrior-mark_in us plans plans' rs e h.1,
)

-- What holds of every renewal holds of those before a plan.
module _ (P : Renewal → Type 0) where
  All-follow :
      (renewals : List Renewal) (fuel u : ℕ)
      → All P renewals
      → All P (follow fuel (get_origin_renewal renewals) prior_plan u)
  unfolding follow get_origin_renewal
  All-follow renewals zero u h = tt
  All-follow renewals (suc fuel) u h = elim (Option-cases (get_origin_renewal renewals u)) [
    | inl e ↦ rw (follow-none fuel u (get_origin_renewal renewals) prior_plan e) tt
    | inr (r, e) ↦
        rw
          (follow_step fuel u r.prior_subscription_plan (get_origin_renewal renewals) prior_plan r e
            refl)
          (
            (All-first P (λ x. same x.renewed_subscription_plan (some u)) renewals {a = r} h e).0,
            All-follow renewals fuel r.prior_subscription_plan h,
          )
  ]

  All-reverse : (rs : List Renewal) → All P rs → All P (reverse rs)
  All-reverse [] h = tt
  All-reverse (r ∷ rs) h =
      rw (reverse-cons r rs) (All-append P (reverse rs) (r ∷ []) (All-reverse rs h.1) (h.0, tt))

-- An action that succeeds and marks plans, at least those with these uuids
pub record MarksAll (act : Action Unit) (wanted : List ℕ) (w : World) : Type 0 where
  pub uuids : List ℕ
  pub after : World
  pub runs : act w ≡ (ok tt, after)
  pub marks : Marks uuids w after
  pub covers : All (λ u. is_in uuids u ≡ true) wanted

module _ (client : List ℕ → Bool) (answers : (c : List ℕ) → client c ≡ false) where
  expire_one : (p : Plan) (w : World) → MarksAll (expire_subscription_plan client p) (p.uuid ∷ []) w
  expire_one p w = record {
    uuids = p.uuid ∷ [];
    after = after_plan client p w;
    runs = expire_subscription_plan_lem client p w;
    marks = rw (none_fail client (calls_for p w) answers) (record {
      plans_marked = mark_in_one p.uuid w.plans;
      licenses_kept = refl;
      renewals_kept = refl;
      now_kept = refl;
    });
    covers = (ground arith, tt);
  }

  prior_step :
      (r : Renewal) (rs : List Renewal) (p : Plan) (w : World)
      → find r.prior_subscription_plan w.plans ≡ some p
      → expire_priors client (r ∷ rs) w
        ≡ (expire_subscription_plan client p >> expire_priors client rs) w
  unfolding expire_priors get_plan
  prior_step r rs p w e = ground arith

  expire_priors_marks :
      (rs : List Renewal) (w : World)
      → All (HasPrior w.plans) rs
      → MarksAll (expire_priors client rs) [] w
  unfolding expire_priors
  expire_priors_marks [] w h = record {
    uuids = [];
    after = w;
    runs = refl;
    marks = Marks-none w;
    covers = tt;
  }
  expire_priors_marks (r ∷ rs) w h = elim (Option-cases (find r.prior_subscription_plan w.plans)) [
    | inl e ↦ ground arith
    | inr (p, e) ↦
        let first = expire_one p w in
        let rest = expire_priors_marks rs first.after (
          HasPrior-mark_in first.uuids w.plans first.after.plans rs first.marks.plans_marked h.1) in
        record {
          uuids = first.uuids ++ rest.uuids;
          after = rest.after;
          runs =
              prior_step r rs p w e
              ∙ then_runs (expire_subscription_plan client p) (expire_priors client rs) w
                  first.after first.runs rest.runs;
          marks = Marks-then first.uuids rest.uuids w first.after rest.after first.marks rest.marks;
          covers = tt;
        }
  ]

  -- A plan without a renewal, and the plans before it
  pub expire_chain :
      (p : Plan) (renewals : List Renewal) (w : World)
      → All (HasPrior w.plans) renewals
      → MarksAll
          (expire_subscription_plan client p
            >> expire_priors client (prior_renewals renewals p.uuid))
          (p.uuid ∷ [])
          w
  unfolding prior_renewals
  expire_chain p renewals w h =
      let rs = prior_renewals renewals p.uuid in
      let first = expire_one p w in
      let listed =
        All-reverse (HasPrior w.plans)
          (follow (suc (length renewals)) (get_origin_renewal renewals) prior_plan p.uuid)
          (All-follow (HasPrior w.plans) renewals (suc (length renewals)) p.uuid h) in
      let rest = expire_priors_marks rs first.after (
        HasPrior-mark_in first.uuids w.plans first.after.plans rs first.marks.plans_marked
          listed) in
      record {
        uuids = first.uuids ++ rest.uuids;
        after = rest.after;
        runs =
            then_runs (expire_subscription_plan client p) (expire_priors client rs) w first.after
              first.runs rest.runs;
        marks = Marks-then first.uuids rest.uuids w first.after rest.after first.marks rest.marks;
        covers = (ground (arith, is_in-append first.uuids rest.uuids p.uuid, first.covers.0), tt);
      }
