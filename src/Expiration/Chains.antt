-- ===== src/Expiration/Chains.antt =====
-- The loops over the renewals before and after a plan.
use license_manager.Base.{
  ℕ, zero, suc, ◌≡◌, ◌<◌, refl, Bool, true, false, none, some, Option, List, [], ◌∷◌, inl, inr,
  arith, All, count, first, length, same, leb, ◌==◌, Option-cases, count-le-length, count-imp,
  All-first,
}
use mathlib.Core.List.{reverse, reverse-reverse}
use license_manager.Models.{Renewal}
use license_manager.Expiration.{
  follow, get_renewal, get_origin_renewal, prior_renewals, future_renewals, prior_plan,
}

-- The renewals of a chain from a plan on, up to one without a next plan or a plan without a renewal
abbrev pub IsChain : (ℕ → Option Renewal) → (Renewal → Option ℕ) → ℕ → List Renewal → Type 0
IsChain renewal_of onward u [] = renewal_of u ≡ none
IsChain renewal_of onward u (r ∷ rs) =
    (renewal_of u ≡ some r)
    × elim (onward r) [ none ↦ (rs ≡ []) | some v ↦ IsChain renewal_of onward v rs ]

pub follow-none :
    (fuel u : ℕ) (renewal_of : ℕ → Option Renewal) (onward : Renewal → Option ℕ)
    → renewal_of u ≡ none
    → follow (suc fuel) renewal_of onward u ≡ []
unfolding follow
follow-none fuel u renewal_of onward e = ground arith

follow_end :
    (fuel u : ℕ) (renewal_of : ℕ → Option Renewal) (onward : Renewal → Option ℕ) (r : Renewal)
    → renewal_of u ≡ some r
    → onward r ≡ none
    → follow (suc fuel) renewal_of onward u ≡ r ∷ []
unfolding follow
follow_end fuel u renewal_of onward r e o = ground arith

pub follow_step :
    (fuel u v : ℕ) (renewal_of : ℕ → Option Renewal) (onward : Renewal → Option ℕ) (r : Renewal)
    → renewal_of u ≡ some r
    → onward r ≡ some v
    → follow (suc fuel) renewal_of onward u ≡ r ∷ follow fuel renewal_of onward v
unfolding follow
follow_step fuel u v renewal_of onward r e o = ground arith

module _ (renewal_of : ℕ → Option Renewal) (onward : Renewal → Option ℕ) (steps : ℕ → ℕ)
    (fewer : (u v : ℕ) (r : Renewal)
      → renewal_of u ≡ some r
      → onward r ≡ some v
      → steps v < steps u) where
  follow-IsChain :
      (fuel u : ℕ) → steps u < fuel → IsChain renewal_of onward u (follow fuel renewal_of onward u)
  follow-IsChain zero u h = ground arith
  follow-IsChain (suc fuel) u h = elim (Option-cases (renewal_of u)) [
    | inl e ↦ rw (follow-none fuel u renewal_of onward e) e
    | inr (r, e) ↦ elim (Option-cases (onward r)) [
      | inl o ↦ rw (follow_end fuel u renewal_of onward r e o) (e, rw o refl)
      | inr (v, o) ↦
          let rest = follow-IsChain fuel v (omega (arith, fewer u v r e o)) in
          rw (follow_step fuel u v renewal_of onward r e o) (e, rw o rest)
    ]
  ]

-- A stricter test that the row found fails
count-first :
    (f p q : Renewal → Bool) (rows : List Renewal) {r : Renewal}
    → ((x : Renewal) → q x ≡ true → p x ≡ true)
    → first f rows ≡ some r
    → p r ≡ true
    → q r ≡ false
    → count q rows < count p rows
count-first f p q [] imp e hp hq = cc
count-first f p q (x ∷ rows) {r} imp e hp hq =
    ground (arith, imp x, count-imp p q rows imp, count-first f p q rows {r = r} imp)

-- A renewal leads from a plan to one of a higher rank, so that no chain of renewals is a cycle.
abbrev pub IsForward : (ℕ → ℕ) → Renewal → Type 0
IsForward rank r = elim r.renewed_subscription_plan [
  | none ↦ Unit
  | some v ↦ rank r.prior_subscription_plan < rank v
]

module _ (rank : ℕ → ℕ) (renewals : List Renewal) (forward : All (IsForward rank) renewals) where
  abbrev at_most : ℕ → Renewal → Bool
  at_most u r = elim r.renewed_subscription_plan [ none ↦ false | some v ↦ leb (rank v) (rank u) ]

  abbrev at_least : ℕ → Renewal → Bool
  at_least u r = leb (rank u) (rank r.prior_subscription_plan)

  fewer_before :
      (u v : ℕ) (r : Renewal)
      → get_origin_renewal renewals u ≡ some r
      → prior_plan r ≡ some v
      → count (at_most v) renewals < count (at_most u) renewals
  unfolding get_origin_renewal
  fewer_before u v r e o =
      let (ahead, found) =
        All-first (IsForward rank) (λ x. same x.renewed_subscription_plan (some u)) renewals {a = r}
          forward e in
      let higher : rank v < rank u = ground arith in
      count-first (λ x. same x.renewed_subscription_plan (some u)) (at_most u) (at_most v) renewals
        {r = r} (λ x b. ground arith) e (ground arith) (ground arith)

  fewer_after :
      (u v : ℕ) (r : Renewal)
      → get_renewal renewals u ≡ some r
      → r.renewed_subscription_plan ≡ some v
      → count (at_least v) renewals < count (at_least u) renewals
  unfolding get_renewal
  fewer_after u v r e o =
      let (ahead, found) =
        All-first (IsForward rank) (λ x. x.prior_subscription_plan == u) renewals {a = r} forward
          e in
      let higher : rank r.prior_subscription_plan < rank v = ground arith in
      count-first (λ x. x.prior_subscription_plan == u) (at_least u) (at_least v) renewals {r = r}
        (λ x b. ground arith) e (ground arith) (ground arith)

-- Where every renewal leads to a plan of a higher rank, so that no chain of renewals is a cycle, the
-- loops of `prior_renewals` and `future_renewals` end: the one lists, from the most recent back, every
-- renewal that led to the plan, up to a plan that no renewal made, and the other every renewal from the
-- plan on, up to a plan without a renewal or a renewal without a new plan.
pub renewals-IsChain :
    (rank : ℕ → ℕ) (renewals : List Renewal) (u : ℕ)
    → All (IsForward rank) renewals
    → IsChain (get_origin_renewal renewals) prior_plan u (reverse (prior_renewals renewals u))
      × IsChain
          (get_renewal renewals)
          (λ r. r.renewed_subscription_plan)
          u
          (future_renewals renewals u)
unfolding prior_renewals future_renewals
renewals-IsChain rank renewals u forward =
    let fuel = suc (length renewals) in
    let before =
      follow-IsChain (get_origin_renewal renewals) prior_plan
        (λ v. count (at_most rank renewals forward v) renewals) (fewer_before rank renewals forward)
        fuel u (omega (arith, count-le-length (at_most rank renewals forward u) renewals)) in
    let after =
      follow-IsChain (get_renewal renewals) (λ r. r.renewed_subscription_plan)
        (λ v. count (at_least rank renewals forward v) renewals) (fewer_after rank renewals forward)
        fuel u (omega (arith, count-le-length (at_least rank renewals forward u) renewals)) in
    (rw (reverse-reverse (follow fuel (get_origin_renewal renewals) prior_plan u)) before, after)
