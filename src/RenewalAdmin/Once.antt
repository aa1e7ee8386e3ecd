-- ===== src/RenewalAdmin/Once.antt =====
-- One renewal for a plan and into a plan, however often a creation is requested.
use license_manager.Base.{
  ◌≡◌, ◌≢◌, refl, ap, ◌∙◌, Bool, true, false, not, ◌&&◌, none, some, List, [], ◌∷◌, ◌++◌, inl, inr,
  arith, exists, first, ◌==◌, if◌then◌else◌, Option-cases, Bool-cases, exists-order_by, exists_less,
  first-exists, exists-append, first-order_by_last,
}
use license_manager.Base.Pages.{by_key}
use license_manager.Models.{Renewal, renewal_keyed}
use license_manager.Store.{World, Result, ok, err, database_error}
use license_manager.RenewalAdmin.{
  CreateRequest, validate_create, created, found, conflicted, is_exact_match, is_partial_match,
  create_renewal, Response, create,
}
use license_manager.RenewalAdmin.Create.{
  share_plan, AreOneToOne, IsFresh, with_renewal, is_taken, create_renewal_free,
  create_renewal_exact, create_renewal_partial, match_found, answer_of, create_invalid,
  create_valid, ordered, new,
}

-- What a request that is answered_again comes to
abbrev pub answered_again : Result Response → Result Response
answered_again (ok response) =
    if response.status == 201 then ok (record response { status = 200 }) else ok response
answered_again (err e) = err e

-- The ways in which a creation ends
pub data Ending (request : CreateRequest) (w : World) : Type 0 where
  ends_invalid : validate_create request w.plans ≡ false → Ending request w
  ends_found :
      (r : Renewal)
      → validate_create request w.plans ≡ true
      → is_taken request w ≡ true
      → create_renewal request w ≡ (ok (found, r), w)
      → Ending request w
  ends_conflicted :
      (r : Renewal)
      → validate_create request w.plans ≡ true
      → is_taken request w ≡ true
      → create_renewal request w ≡ (ok (conflicted, r), w)
      → Ending request w
  ends_created :
      validate_create request w.plans ≡ true → is_taken request w ≡ false → Ending request w

module _ (request : CreateRequest) (w : World) where
  taken_from :
      (p : Renewal → Bool) {r : Renewal}
      → ((s : Renewal) → p s ≡ true → share_plan (new request w) s ≡ true)
      → first p (ordered request w) ≡ some r
      → is_taken request w ≡ true
  taken_from p {r} h e = elim (Bool-cases (is_taken request w)) [
    | inl t ↦ t
    | inr free ↦
        let nothing = first-exists p (ordered request w) (
          exists-order_by p by_key w.renewals
          ∙ exists_less (share_plan (new request w)) p w.renewals h free) in
        cc
  ]

  ending : Ending request w
  ending = elim (Bool-cases (validate_create request w.plans)) [
    | inr invalid ↦ ends_invalid invalid
    | inl valid ↦ elim (Option-cases (first (is_exact_match request) (ordered request w))) [
      | inr (r, e) ↦
          ends_found r valid (taken_from (is_exact_match request) {r = r} (λ s h. ground arith) e)
            (create_renewal_exact request w e)
      | inl e ↦ elim (Option-cases (first (is_partial_match request) (ordered request w))) [
        | inr (r, f) ↦
            ends_conflicted r valid
              (taken_from (is_partial_match request) {r = r} (λ s h. ground arith) f)
              (create_renewal_partial request w e f)
        | inl f ↦ elim (Bool-cases (is_taken request w)) [
          | inl taken ↦ ends_invalid (cc (match_found request w taken e f))
          | inr free ↦ ends_created valid free
        ]
      ]
    ]
  ]

AreOneToOne-last :
    (r : Renewal) (rows : List Renewal)
    → AreOneToOne rows
    → exists (share_plan r) rows ≡ false
    → AreOneToOne (rows ++ r ∷ [])
AreOneToOne-last r [] h e = (refl, tt)
AreOneToOne-last r (x ∷ rows) h e =
    let rest = AreOneToOne-last r rows h.1 (ground arith) in
    let apart : share_plan x r ≡ false = ground arith in
    ground (arith, exists-append (share_plan x) rows (r ∷ []))

-- What follows from how a request ends and how it ends again
again :
    (request : CreateRequest) (w w1 : World) (a b : Result Response)
    → create request w ≡ (a, w1)
    → create request w1 ≡ (b, w1)
    → b ≡ answered_again a
    → let (response, after) = create request w in
      create request after ≡ (answered_again response, after)
again request w w1 a b e f g = rw e (f ∙ ap (λ r. (r, w1)) g)

created_exact :
    (request : CreateRequest) (w : World)
    → is_taken request w ≡ false
    → create_renewal request (with_renewal request w)
      ≡ (ok (found, new request w), with_renewal request w)
created_exact request w free = create_renewal_exact request (with_renewal request w) (
    first-order_by_last (is_exact_match request) by_key w.renewals (new request w)
      (exists_less (share_plan (new request w)) (is_exact_match request) w.renewals
        (λ r e. ground arith) free)
      (ground arith))

-- Where the ids of renewals are numbered upwards, requesting the creation of a renewal again
-- changes nothing and is answered as before, with the same renewal or error, except that the status
-- is 200 in place of 201.
pub create_again :
    (request : CreateRequest) (w : World)
    → IsFresh w
    → let (response, after) = create request w in
      create request after ≡ (answered_again response, after)
create_again request w fresh = elim (ending request w) [
  | ends_invalid e ↦
      let once = create_invalid request w e in
      again request w w (ok (record { status = 400; renewal = none }))
        (ok (record { status = 400; renewal = none })) once once refl
  | ends_found r valid taken e ↦
      let once = create_valid request w w (found, r) valid e in
      again request w w (answer_of request (found, r)) (answer_of request (found, r)) once once refl
  | ends_conflicted r valid taken e ↦
      let once = create_valid request w w (conflicted, r) valid e in
      again request w w (answer_of request (conflicted, r)) (answer_of request (conflicted, r)) once
        once (ground arith)
  | ends_created valid free ↦
      let once =
        create_valid request w (with_renewal request w) (created, new request w) valid
          (create_renewal_free request w fresh free) in
      let twice =
        create_valid request (with_renewal request w) (with_renewal request w)
          (found, new request w) valid (created_exact request w free) in
      again request w (with_renewal request w) (answer_of request (created, new request w))
        (answer_of request (found, new request w)) once twice refl
]

-- Where no two renewals have one prior plan, no two have one renewed plan, and their ids are
-- numbered upwards: a request for a creation adds the renewal that it asks for just when it is
-- valid and no renewal has its prior plan or, where it names one, its renewed plan. Otherwise it
-- changes nothing. It never runs into the unique columns of the database, and afterwards there are
-- still no two renewals with one prior or one renewed plan.
pub create-AreOneToOne :
    (request : CreateRequest) (w : World)
    → IsFresh w
    → AreOneToOne w.renewals
    → ((create request w).1 ≡ (
        if validate_create request w.plans && not (is_taken request w)
        then with_renewal request w
        else w))
      × ((create request w).0 ≢ err database_error)
      × AreOneToOne (create request w).1.renewals
create-AreOneToOne request w fresh one = elim (ending request w) [
  | ends_invalid e ↦ let once = create_invalid request w e in rw (once, e) (refl, λ h. cc, one)
  | ends_found r valid taken e ↦
      let once = create_valid request w w (found, r) valid e in
      rw (once, valid, taken) (refl, λ h. cc, one)
  | ends_conflicted r valid taken e ↦
      let once = create_valid request w w (conflicted, r) valid e in
      rw (once, valid, taken) (refl, λ h. ground arith, one)
  | ends_created valid free ↦
      let once =
        create_valid request w (with_renewal request w) (created, new request w) valid
          (create_renewal_free request w fresh free) in
      rw (once, valid, free) (refl, λ h. cc, AreOneToOne-last (new request w) w.renewals one free)
]
