-- ===== src/Revocation/Views/Kept.antt =====
-- Whatever is requested, the views of revocation keep the invariant of the database, the caps and the
-- numbers of licenses.
use license_manager.Base.{
  ℕ, suc, ◌+◌, ◌<◌, ◌≡◌, refl, ap, ◌∙◌, true, false, none, some, Option, List, [], ◌∷◌, arith, All,
  All-order_by, All-first, All-map_imp, select, order_by, first, length, Bool-cases, Option-cases,
  inl, inr,
}
use license_manager.Base.Table.{find, All-find}
use license_manager.Base.Table.Keys.{IsLoaded, select-IsLoaded}
use license_manager.Models.{
  License, Plan, license_keyed, plan_keyed, num_licenses, num_revocations_remaining, is_assigned,
}
use license_manager.Store.{World, Result, ok, err, Error}
use license_manager.Store.Sound.{IsSound, HasPlan}
use license_manager.Revocation.{
  Revocation, revoke_license, execute_post_revocation_tasks, follow_up_each, Actor,
}
use license_manager.Revocation.Effect.{revoke_license_outcome}
use license_manager.Revocation.Pool.{num_licenses-revoke_license}
use license_manager.Revocation.Cap.{IsWithinCap, revoke_license-IsWithinCap, revoke_license-IsSound}
use license_manager.Revocation.Views.{
  pick_license, by_uuid, revocable_by_email, revoke_by_email_and_plan, Attempt, try_revoke,
  revoke_emails, is_caught, BulkRequest, bulk_revoke, bulk_revoke_in, conclude, succeeded, failed,
  attempt_of, revocations, exceeds, requested_emails, bulk_actor,
}

-- A later world: the invariant holds, no plan went over its cap, and every plan reports the number of
-- licenses that it reported before.
pub record IsKept (before after : World) : Type 0 where
  pub sound : IsSound after
  pub capped : (u : ℕ) → IsWithinCap u before → IsWithinCap u after
  pub reported : (q : ℕ) → num_licenses q after.licenses ≡ num_licenses q before.licenses

pub IsKept-refl : (w : World) → IsSound w → IsKept w w
IsKept-refl w s = record { sound = s; capped = λ u h. h; reported = λ q. refl }

pub IsKept-trans : (a b c : World) → IsKept a b → IsKept b c → IsKept a c
IsKept-trans a b c x y = record {
  sound = y.sound;
  capped = λ u h. y.capped u (x.capped u h);
  reported = λ q. y.reported q ∙ x.reported q;
}

-- What is kept depends on the licenses, the plans and the next uuid only.
pub IsKept-same :
    (a b c : World)
    → IsKept a b
    → c.licenses ≡ b.licenses
    → c.plans ≡ b.plans
    → c.next_uuid ≡ b.next_uuid
    → IsKept a c
IsKept-same a b c k ls ps n = record {
  sound = record {
    keys = rw ls k.sound.keys;
    issued = rw (ls, n) k.sound.issued;
    linked = rw (ls, ps) k.sound.linked;
  };
  capped =
      λ u h. record { within = λ p e capped. rw ls ((k.capped u h).within p (rw ps at e) capped) };
  reported = λ q. rw ls (k.reported q);
}

IsLoaded-plan :
    (l : License) (w : World)
    → IsSound w
    → IsLoaded w.licenses l
    → (p : Plan) × (find l.subscription_plan w.plans ≡ some p)
IsLoaded-plan l w s row = elim (Option-cases (find l.subscription_plan w.plans)) [
  | inl missing ↦ absurd (ground (arith, All-find (HasPlan w.plans) l.uuid w.licenses s.linked row))
  | inr found ↦ found
]

revoke_license-IsKept :
    (l : License) (w : World) → IsSound w → IsLoaded w.licenses l → IsKept w (revoke_license l w).1
revoke_license-IsKept l w s row =
    let (p, plan) = IsLoaded-plan l w s row in
    record {
      sound = revoke_license-IsSound l p w row plan s;
      capped = λ u. revoke_license-IsWithinCap l p w row plan u;
      reported = λ q. num_licenses-revoke_license l p w q row plan;
    }

-- `revoke_license` raises nothing but what the views catch.
revoke_license_caught :
    (l : License) (w : World) (e : Error)
    → IsSound w
    → IsLoaded w.licenses l
    → (revoke_license l w).0 ≡ err e
    → is_caught e ≡ true
revoke_license_caught l w e s row =
    let (p, plan) = IsLoaded-plan l w s row in
    rw (revoke_license_outcome l p w row plan) (λ raised. ground arith)

pick_license-All :
    (P : License → Type 0) (ls : List License) (l : License)
    → All P ls
    → pick_license ls ≡ some l
    → P l
unfolding pick_license
pick_license-All P [] l h e = cc
pick_license-All P (x ∷ []) l h e = ground arith
pick_license-All P (x ∷ y ∷ ls) l h e =
    elim (Option-cases (first (λ (x : License). is_assigned x.status) (x ∷ y ∷ ls))) [
      | inl none_assigned ↦ ground arith
      | inr (a, found) ↦
          let same : a ≡ l = ground arith in
          rw (← same) (All-first P (λ (x : License). is_assigned x.status) (x ∷ y ∷ ls) h found).0
    ]

module _ (plan : ℕ) (user_email : Option ℕ) (w : World) (s : IsSound w) where
  abbrev candidates : List License
  candidates = order_by by_uuid (select (revocable_by_email user_email plan) w.licenses)

  candidates-IsLoaded : All (IsLoaded w.licenses) candidates
  candidates-IsLoaded =
      All-order_by (IsLoaded w.licenses) by_uuid
        (select (revocable_by_email user_email plan) w.licenses)
        (select-IsLoaded (revocable_by_email user_email plan) w.licenses s.keys)

  revoke_by_email-IsKept : IsKept w (revoke_by_email_and_plan user_email plan w).1
  unfolding revoke_by_email_and_plan
  revoke_by_email-IsKept = elim (Option-cases (pick_license candidates)) [
    | inl nobody ↦ rw nobody (IsKept-refl w s)
    | inr (l, picked) ↦ rw picked (
        revoke_license-IsKept l w s
          (pick_license-All (IsLoaded w.licenses) candidates l candidates-IsLoaded picked))
  ]

  revoke_by_email_caught :
      (e : Error) → (revoke_by_email_and_plan user_email plan w).0 ≡ err e → is_caught e ≡ true
  unfolding revoke_by_email_and_plan
  revoke_by_email_caught e = elim (Option-cases (pick_license candidates)) [
    | inl nobody ↦ rw nobody (λ raised. ground arith)
    | inr (l, picked) ↦ rw picked (
        revoke_license_caught l w e s
          (pick_license-All (IsLoaded w.licenses) candidates l candidates-IsLoaded picked))
  ]

attempt_of_lem :
    (user_email : Option ℕ) (out : Result Revocation × World)
    → ((e : Error) → out.0 ≡ err e → is_caught e ≡ true)
    → (a : Attempt) × ((attempt_of user_email out).0 ≡ ok a)
      × ((attempt_of user_email out).1 ≡ out.1)
attempt_of_lem user_email (ok r, w) h = (succeeded user_email r, refl, refl)
attempt_of_lem user_email (err e, w) h = (failed user_email e, rw (h e refl) refl, refl)

-- The loop tries every email: it always ends, with one entry for each email.
revoke_emails_lem :
    (plan : ℕ) (emails : List (Option ℕ)) (w : World)
    → IsSound w
    → (attempts : List Attempt) × ((revoke_emails plan emails w).0 ≡ ok attempts)
      × (length attempts ≡ length emails)
      × IsKept w (revoke_emails plan emails w).1
unfolding revoke_emails try_revoke
revoke_emails_lem plan [] w s = ([], refl, refl, IsKept-refl w s)
revoke_emails_lem plan (user_email ∷ emails) w s =
    let out = revoke_by_email_and_plan user_email plan w in
    let kept = revoke_by_email-IsKept plan user_email w s in
    let (a, first_ok, moved) =
      attempt_of_lem user_email out (revoke_by_email_caught plan user_email w s) in
    let (attempts, rest_ok, n, rest) = revoke_emails_lem plan emails out.1 kept.sound in
    let step : revoke_emails plan (user_email ∷ emails) w
        ≡ (ok (a ∷ attempts), (revoke_emails plan emails out.1).1) =
      ground (arith, first_ok, moved, rest_ok) in
    (a ∷ attempts, rw step, ap suc n, rw step (IsKept-trans w out.1 _ kept rest))

-- The rows that `IsKept` speaks of are the same in two worlds.
record IsSameRows (a b : World) : Type 0 where
  licenses : b.licenses ≡ a.licenses
  plans : b.plans ≡ a.plans
  uuids : b.next_uuid ≡ a.next_uuid

follow_up-IsSameRows :
    (r : Revocation) (actor : Actor) (w : World)
    → IsSameRows w (execute_post_revocation_tasks r actor w).1
unfolding execute_post_revocation_tasks
follow_up-IsSameRows r actor w = record {
  licenses = ground arith;
  plans = ground arith;
  uuids = ground arith;
}

follow_up_each-IsSameRows :
    (actor : Actor) (rs : List Revocation) (w : World) → IsSameRows w (follow_up_each actor rs w).1
unfolding follow_up_each
follow_up_each-IsSameRows actor [] w = record { licenses = refl; plans = refl; uuids = refl }
follow_up_each-IsSameRows actor (r ∷ rs) w =
    let one = follow_up-IsSameRows r actor w in
    let rest = follow_up_each-IsSameRows actor rs (execute_post_revocation_tasks r actor w).1 in
    ground arith

conclude-IsSameRows :
    (actor : Actor) (attempts : List Attempt) (w : World)
    → IsSameRows w (conclude actor attempts w).1
unfolding conclude
conclude-IsSameRows actor attempts w =
    let rest = follow_up_each-IsSameRows actor (revocations attempts) w in
    record { licenses = ground arith; plans = ground arith; uuids = ground arith }

-- The world after the correlation id was drawn.
abbrev drawn : World → World
drawn w = record w { next_uuid = w.next_uuid + 1 }

drawn-IsKept : (w : World) → IsSound w → IsKept w (drawn w)
drawn-IsKept w s = record {
  sound = record {
    keys = s.keys;
    issued =
        All-map_imp (λ (l : License). l.uuid < w.next_uuid)
          (λ (l : License). l.uuid < w.next_uuid + 1) w.licenses (λ l h. omega arith) s.issued;
    linked = s.linked;
  };
  capped = λ u h. record { within = h.within };
  reported = λ q. refl;
}

module _ (request : BulkRequest) (p : Plan) (w : World) where
  abbrev emails : List (Option ℕ)
  emails = requested_emails request p.uuid w.licenses

  abbrev tried : World
  tried = (revoke_emails p.uuid emails (drawn w)).1

  bulk_revoke_in_step :
      (attempts : List Attempt)
      → exceeds (length emails) (num_revocations_remaining p w.licenses) ≡ false
      → (revoke_emails p.uuid emails (drawn w)).0 ≡ ok attempts
      → bulk_revoke_in request p w ≡ conclude (bulk_actor request.user w.next_uuid) attempts tried
  unfolding bulk_revoke_in
  bulk_revoke_in_step attempts enough done = rw enough (ground arith)

  bulk_revoke_in-IsKept : IsSound w → IsKept w (bulk_revoke_in request p w).1
  bulk_revoke_in-IsKept s =
      elim (Bool-cases (exceeds (length emails) (num_revocations_remaining p w.licenses))) [
        | inl over ↦ unfold bulk_revoke_in in rw over (IsKept-refl w s)
        | inr enough ↦
            let first_step = drawn-IsKept w s in
            let (attempts, done, n, kept) =
              revoke_emails_lem p.uuid emails (drawn w) first_step.sound in
            let same = conclude-IsSameRows (bulk_actor request.user w.next_uuid) attempts tried in
            rw (bulk_revoke_in_step attempts enough done) (
              IsKept-same w tried _ (IsKept-trans w (drawn w) tried first_step kept) same.licenses
                same.plans same.uuids)
      ]

bulk_revoke_missing :
    (request : BulkRequest) (u : ℕ) (w : World)
    → find u w.plans ≡ none
    → (bulk_revoke request u w).1 ≡ w
unfolding bulk_revoke
bulk_revoke_missing request u w missing = ground arith

bulk_revoke_found :
    (request : BulkRequest) (u : ℕ) (p : Plan) (w : World)
    → find u w.plans ≡ some p
    → bulk_revoke request u w ≡ bulk_revoke_in request p w
unfolding bulk_revoke
bulk_revoke_found request u p w plan = ground arith

-- Under the invariant of the database, whatever a bulk revocation requests, and however its single
-- revocations end, the invariant holds after it, no plan has gone over its revocation cap, and
-- every plan reports the same number of licenses as before.
pub bulk_revoke-IsKept :
    (request : BulkRequest) (subscription_uuid : ℕ) (w : World)
    → IsSound w
    → IsKept w (bulk_revoke request subscription_uuid w).1
bulk_revoke-IsKept request u w s = elim (Option-cases (find u w.plans)) [
  | inl missing ↦ rw (bulk_revoke_missing request u w missing) (IsKept-refl w s)
  | inr (p, plan) ↦ rw (bulk_revoke_found request u p w plan) (bulk_revoke_in-IsKept request p w s)
]
