-- ===== src/Renewal/Room.antt =====
-- The licenses of a plan that has only unassigned ones, before and after more are created.
use license_manager.Base.{
  ℕ, zero, suc, ◌+◌, ◌≡◌, refl, false, not, ◌&&◌, List, [], ◌∷◌, All, arith, count, exists, select,
}
use license_manager.Models.{License, is_unassigned, in_plan, revocable_in, unrevoked_in}
use license_manager.Store.{fresh_licenses}
use license_manager.Renewal.Copies.{IsFree}

-- A license that is unassigned if it is in the plan.
abbrev pub IsQuiet : ℕ → License → Type 0
IsQuiet plan l = (in_plan plan l && not (is_unassigned l.status)) ≡ false

pub rows-IsQuiet :
    (plan : ℕ) (rows : List License)
    → exists (λ l. not (is_unassigned l.status)) (select (in_plan plan) rows) ≡ false
    → All (IsQuiet plan) rows
rows-IsQuiet plan [] h = tt
rows-IsQuiet plan (l ∷ rows) h = ground (arith, rows-IsQuiet plan rows)

pub select-IsFree :
    (plan : ℕ) (rows : List License)
    → All (IsQuiet plan) rows
    → All (IsFree plan) (select (in_plan plan) rows)
select-IsFree plan [] h = tt
select-IsFree plan (l ∷ rows) h = ground (arith, select-IsFree plan rows h.1)

pub fresh_licenses-IsQuiet : (plan start n : ℕ) → All (IsQuiet plan) (fresh_licenses plan start n)
unfolding fresh_licenses
fresh_licenses-IsQuiet plan start zero = tt
fresh_licenses-IsQuiet plan start (suc n) =
    (ground arith, fresh_licenses-IsQuiet plan (start + 1) n)

-- Such a plan reports all its licenses, and none of them is assigned or activated.
pub count-IsQuiet :
    (plan : ℕ) (rows : List License)
    → All (IsQuiet plan) rows
    → (count (unrevoked_in plan) rows ≡ count (in_plan plan) rows)
      × (count (revocable_in plan) rows ≡ 0)
count-IsQuiet plan [] h = (refl, refl)
count-IsQuiet plan (l ∷ rows) h = ground (arith, count-IsQuiet plan rows h.1)
