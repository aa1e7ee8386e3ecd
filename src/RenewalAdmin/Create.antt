-- ===== src/RenewalAdmin/Create.antt =====
-- Creating renewals through the endpoint, once and again.
use license_manager.Base.{
  ◌+◌, ◌<◌, ◌≡◌, refl, sym, ◌∙◌, Bool, true, false, ◌&&◌, ◌||◌, none, some, List, [], ◌∷◌, ◌++◌,
  arith, All, exists, first, first-none, order_by, is_some, same, ◌==◌, if◌then◌else◌,
  exists-order_by, exists_less, exists-or, first-exists,
}
use license_manager.Base.Table.{upsert}
use license_manager.Base.Pages.{by_key}
use license_manager.Models.{Renewal, renewal_keyed}
use license_manager.Store.{World, Result, ok, err, key_error}
use license_manager.Renewal.{clashes, save_renewal}
use license_manager.RenewalAdmin.{
  CreateRequest, validate_create, Created, created, found, conflicted, is_exact_match,
  is_partial_match, new_renewal, create_renewal, Response, create,
}

-- Two renewals of one plan, or into one plan
abbrev pub share_plan : Renewal → Renewal → Bool
share_plan r s =
    s.prior_subscription_plan == r.prior_subscription_plan
    || (is_some r.renewed_subscription_plan
        && same s.renewed_subscription_plan r.renewed_subscription_plan)

abbrev pub AreOneToOne : List Renewal → Type 0
AreOneToOne [] = Unit
AreOneToOne (r ∷ rows) = (exists (share_plan r) rows ≡ false) × AreOneToOne rows

-- What an id is taken from is above all ids.
abbrev pub IsFresh : World → Type 0
IsFresh w = All (λ (r : Renewal). r.id < w.next_uuid) w.renewals

upsert-fresh :
    (r : Renewal) (rows : List Renewal)
    → All (λ (s : Renewal). s.id < r.id) rows
    → upsert r rows ≡ rows ++ r ∷ []
upsert-fresh r [] h = refl
upsert-fresh r (x ∷ rows) h = let below = h.0 in ground (arith, upsert-fresh r rows h.1)

-- The world with the renewal of a request
abbrev pub with_renewal : CreateRequest → World → World
with_renewal request w = record w {
  db = record w.db { renewals = w.renewals ++ new_renewal request w.next_uuid ∷ [] };
  next_uuid = w.next_uuid + 1;
}

-- Whether a request asks for plans that no renewal has
abbrev pub is_taken : CreateRequest → World → Bool
is_taken request w = exists (share_plan (new_renewal request w.next_uuid)) w.renewals

module _ (request : CreateRequest) (w : World) where
  abbrev pub ordered : List Renewal
  ordered = order_by by_key w.renewals

  abbrev pub new : Renewal
  new = new_renewal request w.next_uuid

  save_renewal_lem :
      IsFresh w
      → is_taken request w ≡ false
      → save_renewal new (record w { next_uuid = w.next_uuid + 1 })
        ≡ (ok tt, with_renewal request w)
  unfolding save_renewal
  save_renewal_lem fresh free = ground (
    arith,
    exists_less (share_plan new)
        (clashes new.id new.prior_subscription_plan new.renewed_subscription_plan) w.renewals
        (λ r e. ground arith) free,
    upsert-fresh new w.renewals fresh,
  )

  pub create_renewal_free :
      IsFresh w
      → is_taken request w ≡ false
      → create_renewal request w ≡ (ok (created, new), with_renewal request w)
  unfolding create_renewal
  create_renewal_free fresh free =
      let exact = first-exists (is_exact_match request) ordered (
        exists-order_by (is_exact_match request) by_key w.renewals
        ∙ exists_less (share_plan new) (is_exact_match request) w.renewals (λ r e. ground arith)
            free) in
      let partial = first-exists (is_partial_match request) ordered (
        exists-order_by (is_partial_match request) by_key w.renewals
        ∙ exists_less (share_plan new) (is_partial_match request) w.renewals (λ r e. ground arith)
            free) in
      ground (arith, exact, partial, save_renewal_lem fresh free)

  pub create_renewal_exact :
      {r : Renewal}
      → first (is_exact_match request) ordered ≡ some r
      → create_renewal request w ≡ (ok (found, r), w)
  unfolding create_renewal
  create_renewal_exact {r} e = ground (arith, e)

  pub create_renewal_partial :
      {r : Renewal}
      → first (is_exact_match request) ordered ≡ none
      → first (is_partial_match request) ordered ≡ some r
      → create_renewal request w ≡ (ok (conflicted, r), w)
  unfolding create_renewal
  create_renewal_partial {r} e f = ground (arith, e, f)

  -- Where a plan is taken, there is a match.
  pub match_found :
      is_taken request w ≡ true
      → first (is_exact_match request) ordered ≡ none
      → first (is_partial_match request) ordered ≡ none
      → true ≡ false
  match_found taken e f =
      sym taken
      ∙ exists-or (is_exact_match request) (is_partial_match request) (share_plan new) w.renewals
          (λ r h. ground arith)
          (sym (exists-order_by (is_exact_match request) by_key w.renewals)
            ∙ first-none (is_exact_match request) ordered e)
          (sym (exists-order_by (is_partial_match request) by_key w.renewals)
            ∙ first-none (is_partial_match request) ordered f)

-- The response of the view to what the serializer answers
abbrev pub answer_of : CreateRequest → Created × Renewal → Result Response
answer_of request (created, r) = ok (record { status = 201; renewal = some r })
answer_of request (found, r) = ok (record { status = 200; renewal = some r })
answer_of request (conflicted, r) =
    if is_some request.renewed_subscription_plan
    then ok (record { status = 422; renewal = some r })
    else err key_error

pub create_invalid :
    (request : CreateRequest) (w : World)
    → validate_create request w.plans ≡ false
    → create request w ≡ (ok (record { status = 400; renewal = none }), w)
unfolding create
create_invalid request w e = rw e refl

pub create_valid :
    (request : CreateRequest) (w w1 : World) (a : Created × Renewal)
    → validate_create request w.plans ≡ true
    → create_renewal request w ≡ (ok a, w1)
    → create request w ≡ (answer_of request a, w1)
unfolding create
create_valid request w w1 (created, r) e f = ground (arith, e, f)
create_valid request w w1 (found, r) e f = ground (arith, e, f)
create_valid request w w1 (conflicted, r) e f = ground (arith, e, f)
