-- ===== src/Expiration/Whole.antt =====
-- What `expire_subscriptions` leaves when the enterprise API answers.
use license_manager.Base.{
  ℕ, ◌≡◌, ◌≤◌, refl, ◌∙◌, Bool, true, false, not, ◌&&◌, ◌||◌, List, [], ◌∷◌, ◌++◌, inl, inr, arith,
  All, exists, count, map, length, select, order_by, insert_by, is_some, Bool-cases,
  length-order_by, length-select, exists-count, to_ℕ, min,
}
use license_manager.Models.{Plan, Renewal, plan_keyed}
use license_manager.Store.{World, ok, ◌>>◌}
use license_manager.Store.Counts.{then_runs}
use license_manager.Expiration.{
  Options, get_renewal, prior_renewals, expire_subscription_plan, expire_priors, expire_each,
  is_expired_plan, expire_subscriptions, by_start,
}
use license_manager.Expiration.Marked.{
  is_in, is_in-append, mark_in, MarksAll, Marks-none, Marks-then, HasPrior, HasPrior-mark_in,
  expire_chain,
}

abbrev pub unrenewed : List Renewal → Plan → Bool
unrenewed renewals p = not (is_some (get_renewal renewals p.uuid))

abbrev pub wanted : List Renewal → List Plan → List ℕ
wanted renewals ps = map (λ (p : Plan). p.uuid) (select (unrenewed renewals) ps)

covers_more :
    (us vs ws : List ℕ) → All (λ u. is_in vs u ≡ true) ws → All (λ u. is_in (us ++ vs) u ≡ true) ws
covers_more us vs [] h = tt
covers_more us vs (u ∷ ws) h = (ground (arith, is_in-append us vs u, h.0), covers_more us vs ws h.1)

module _ (client : List ℕ → Bool) (answers : (c : List ℕ) → client c ≡ false) where
  each_skip :
      (p : Plan) (ps : List Plan) (renewals : List Renewal) (w : World)
      → w.renewals ≡ renewals
      → unrenewed renewals p ≡ false
      → expire_each client (p ∷ ps) w ≡ expire_each client ps w
  unfolding expire_each
  each_skip p ps renewals w er h = ground arith

  each_step :
      (p : Plan) (ps : List Plan) (renewals : List Renewal) (w : World)
      → w.renewals ≡ renewals
      → unrenewed renewals p ≡ true
      → expire_each client (p ∷ ps) w
        ≡ ((expire_subscription_plan client p
                >> expire_priors client (prior_renewals renewals p.uuid))
              >> expire_each client ps)
            w
  unfolding expire_each
  each_step p ps renewals w er h = ground arith

  expire_each_marks :
      (ps : List Plan) (renewals : List Renewal) (w : World)
      → w.renewals ≡ renewals
      → All (HasPrior w.plans) renewals
      → MarksAll (expire_each client ps) (wanted renewals ps) w
  unfolding expire_each
  expire_each_marks [] renewals w er h = record {
    uuids = [];
    after = w;
    runs = refl;
    marks = Marks-none w;
    covers = tt;
  }
  expire_each_marks (p ∷ ps) renewals w er h = elim (Bool-cases (unrenewed renewals p)) [
    | inl e ↦
        let act =
          expire_subscription_plan client p
          >> expire_priors client (prior_renewals renewals p.uuid) in
        let first = expire_chain client answers p renewals w h in
        let rest = expire_each_marks ps renewals first.after (first.marks.renewals_kept ∙ er) (
          HasPrior-mark_in first.uuids w.plans first.after.plans renewals first.marks.plans_marked
            h) in
        rw e (record {
          uuids = first.uuids ++ rest.uuids;
          after = rest.after;
          runs =
              each_step p ps renewals w er e
              ∙ then_runs act (expire_each client ps) w first.after first.runs rest.runs;
          marks = Marks-then first.uuids rest.uuids w first.after rest.after first.marks rest.marks;
          covers = (
            ground (arith, is_in-append first.uuids rest.uuids p.uuid, first.covers.0),
            covers_more first.uuids rest.uuids (wanted renewals ps) rest.covers,
          );
        })
    | inr e ↦
        let rest = expire_each_marks ps renewals w er h in
        rw e (record {
          uuids = rest.uuids;
          after = rest.after;
          runs = each_skip p ps renewals w er e ∙ rest.runs;
          marks = rest.marks;
          covers = rest.covers;
        })
  ]

-- A plan that the command looks for, without a renewal, and not processed
abbrev pub is_pending : Options → ℕ → List Renewal → Plan → Bool
is_pending o now renewals p =
    is_expired_plan o now p && unrenewed renewals p && not p.expiration_processed

exists_any : (ps : List Plan) → to_ℕ (exists (λ p. true) ps) ≡ min 1 (length ps)
exists_any [] = ground arith
exists_any (p ∷ ps) = ground arith

module _ (P : Plan → Type 0) where
  All-uninsert :
      (le : Plan → Plan → Bool) (x : Plan) (xs : List Plan)
      → All P (insert_by le x xs)
      → P x × All P xs
  All-uninsert le x [] h = h
  All-uninsert le x (y ∷ ys) h = elim (Bool-cases (le x y)) [
    | inl e ↦ let whole : All P (x ∷ y ∷ ys) = ground arith in whole
    | inr e ↦
        let below : All P (y ∷ insert_by le x ys) = ground arith in
        let rest = All-uninsert le x ys below.1 in (rest.0, (below.0, rest.1))
  ]

  All-unorder : (le : Plan → Plan → Bool) (xs : List Plan) → All P (order_by le xs) → All P xs
  All-unorder le [] h = tt
  All-unorder le (x ∷ xs) h =
      let apart = All-uninsert le x (order_by le xs) h in (apart.0, All-unorder le xs apart.1)

-- A plan that is wanted was marked.
abbrev IsHandled : List Renewal → List ℕ → Plan → Type 0
IsHandled renewals us p = (not (unrenewed renewals p) || is_in us p.uuid) ≡ true

wanted-IsHandled :
    (renewals : List Renewal) (us : List ℕ) (ps : List Plan)
    → All (λ u. is_in us u ≡ true) (wanted renewals ps)
    → All (IsHandled renewals us) ps
wanted-IsHandled renewals us [] h = tt
wanted-IsHandled renewals us (p ∷ ps) h = ground (arith, wanted-IsHandled renewals us ps)

none_pending :
    (o : Options) (now : ℕ) (renewals : List Renewal) (us : List ℕ) (ps : List Plan)
    → All (IsHandled renewals us) (select (is_expired_plan o now) ps)
    → count (is_pending o now renewals) (map (mark_in us) ps) ≡ 0
unfolding is_expired_plan
none_pending o now renewals us [] h = refl
none_pending o now renewals us (p ∷ ps) h = ground (arith, none_pending o now renewals us ps)

-- What the command leaves
pub record IsProcessed (o : Options) (w w' : World) : Type 0 where
  pub none_left : count (is_pending o w.now w.renewals) w'.plans ≡ 0
  pub licenses_kept : w'.licenses ≡ w.licenses
  pub renewals_kept : w'.renewals ≡ w.renewals
  pub uuids : List ℕ
  pub plans_marked : w'.plans ≡ map (mark_in uuids) w.plans

found_any :
    (o : Options) (now : ℕ) (ps : List Plan)
    → exists (is_expired_plan o now) ps ≡ true
    → exists (λ p. true) (order_by by_start (select (is_expired_plan o now) ps)) ≡ true
found_any o now ps h =
    let p = is_expired_plan o now in
    let found = order_by by_start (select p ps) in
    ground (
      arith,
      exists_any found,
      length-order_by by_start (select p ps),
      length-select p ps,
      exists-count p ps,
    )

-- With an enterprise API that answers every call, where every renewal has its prior plan, no dry run,
-- a range of dates in the past and at least one plan found: the command succeeds, no plan that it looks
-- for and that has no renewal is left unprocessed, it only sets the marks of plans, and it changes no
-- license and no renewal.
pub expire_subscriptions_whole :
    (client : List ℕ → Bool) (o : Options) (w : World)
    → ((c : List ℕ) → client c ≡ false)
    → All (HasPrior w.plans) w.renewals
    → o.dry_run ≡ false
    → o.expiration_date_from ≤ w.now
    → o.expiration_date_to ≤ w.now
    → exists (is_expired_plan o w.now) w.plans ≡ true
    → (w' : World) × (expire_subscriptions client o w ≡ (ok tt, w')) × IsProcessed o w w'
unfolding expire_subscriptions
expire_subscriptions_whole client o w answers priors wet from_past to_past found =
    let select_plans = select (is_expired_plan o w.now) w.plans in
    let plans = order_by by_start select_plans in
    let done = expire_each_marks client answers plans w.renewals w refl priors in
    let handled =
      All-unorder (IsHandled w.renewals done.uuids) by_start select_plans
        (wanted-IsHandled w.renewals done.uuids plans done.covers) in
    (
      done.after,
      ground (arith, found_any o w.now w.plans found, done.runs),
      record {
        none_left =
            rw (done.marks.plans_marked)
              (none_pending o w.now w.renewals done.uuids w.plans handled);
        licenses_kept = done.marks.licenses_kept;
        renewals_kept = done.marks.renewals_kept;
        uuids = done.uuids;
        plans_marked = done.marks.plans_marked;
      },
    )
