-- ===== src/Assignment/Counted.antt =====
-- How many licenses every email has when licenses of a plan were assigned to some.
use license_manager.Base.{
  ℕ, ◌+◌, ◌-◌, ◌≡◌, refl, Bool, true, ◌&&◌, some, List, [], ◌∷◌, All, Option-cases, inl, inr, arith,
  count, exists, length, max, select, same, ◌==◌, if◌then◌else◌, to_ℕ,
}
use license_manager.Base.Table.{upsert, count-upsert}
use license_manager.Base.Table.Keys.{DistinctKeys, IsLoaded, IsLoaded-saved}
use license_manager.Models.{License, license_keyed, unassigned_in, revocable_in, unrevoked_in}
use license_manager.Renewal.Copies.{saved}
use license_manager.Assignment.{
  Entry, entry_keyed, dict_from, emails_of, taken_by, remove, remove_each, assigned_rows,
  assigned_to,
}

abbrev pub asks : ℕ → Entry → Bool
asks e x = x.email == e

asks-upsert :
    (e : ℕ) (x : Entry) (d : List Entry)
    → count (λ y. y == e) (emails_of (upsert x d)) ≡ (
        if x.email == e
        then max 1 (count (λ y. y == e) (emails_of d))
        else count (λ y. y == e) (emails_of d))
asks-upsert e x [] = ground arith
asks-upsert e x (y ∷ d) = ground (arith, asks-upsert e x d)

-- Every email that is in the request, and no other, is asked for once.
pub count-dict_from :
    (e : ℕ) (d xs : List Entry)
    → count (λ y. y == e) (emails_of (dict_from d xs))
      ≡ max (count (λ y. y == e) (emails_of d)) (to_ℕ (exists (asks e) xs))
unfolding dict_from
count-dict_from e d [] = ground arith
count-dict_from e d (x ∷ xs) = ground (arith, asks-upsert e x d, count-dict_from e (upsert x d) xs)

count-remove :
    (e x : ℕ) (emails : List ℕ)
    → count (λ y. y == e) (remove x emails) ≡ count (λ y. y == e) emails - (if x == e then 1 else 0)
count-remove e x [] = ground arith
count-remove e x (y ∷ emails) = ground (arith, count-remove e x emails)

pub count-remove_each :
    (e : ℕ) (ls : List License) (emails : List ℕ)
    → count (λ y. y == e) (remove_each ls emails)
      ≡ count (λ y. y == e) emails - count (λ l. same l.user_email (some e)) ls
count-remove_each e [] emails = ground arith
count-remove_each e (l ∷ ls) emails = elim (Option-cases l.user_email) [
  | inl absent ↦ ground (arith, absent, count-remove_each e ls emails)
  | inr (x, has) ↦
      ground (arith, has, count-remove_each e ls (remove x emails), count-remove e x emails)
]

exists-same :
    (a : ℕ) (emails : List ℕ)
    → exists (λ x. same (some a) (some x)) emails ≡ exists (λ y. y == a) emails
exists-same a [] = refl
exists-same a (x ∷ emails) = ground (arith, exists-same a emails)

-- The licenses that an email of the request has already.
pub count-already_associated :
    (plan e : ℕ) (emails : List ℕ) (rows : List License)
    → count
        (λ l. same l.user_email (some e))
        (select (λ l. exists (λ x. same l.user_email (some x)) emails && revocable_in plan l) rows)
      ≡ (if exists (λ y. y == e) emails then count (taken_by plan e) rows else 0)
count-already_associated plan e emails [] = ground arith
count-already_associated plan e emails (l ∷ rows) = elim (Option-cases l.user_email) [
  | inl absent ↦ ground (arith, absent, count-already_associated plan e emails rows)
  | inr (a, has) ↦
      ground (arith, has, exists-same a emails, count-already_associated plan e emails rows)
]

module _ (plan now : ℕ) where
  -- The rows after the licenses `ls` were assigned to the emails `es`.
  pub record IsAssigned (es : List ℕ) (rows after : List License) : Type 0 where
    pub reported : (u : ℕ) → count (unrevoked_in u) after ≡ count (unrevoked_in u) rows
    pub pool : count (unassigned_in plan) after + length es ≡ count (unassigned_in plan) rows
    pub taken :
        (e : ℕ)
        → count (taken_by plan e) after ≡ count (taken_by plan e) rows + count (λ y. y == e) es

  pub assigned_rows-IsAssigned :
      (ls : List License) (es : List ℕ) (key : ℕ) (rows : List License)
      → All (IsLoaded rows) ls
      → DistinctKeys ls
      → All (λ l. unassigned_in plan l ≡ true) ls
      → length ls ≡ length es
      → IsAssigned es rows (saved (assigned_rows now key ls es) rows)
  unfolding assigned_rows
  assigned_rows-IsAssigned [] [] key rows loaded distinct free n = record {
    reported = λ u. refl;
    pool = omega arith;
    taken = λ e. ground arith;
  }
  assigned_rows-IsAssigned [] (e ∷ es) key rows loaded distinct free n = ground arith
  assigned_rows-IsAssigned (l ∷ ls) [] key rows loaded distinct free n = ground arith
  assigned_rows-IsAssigned (l ∷ ls) (e ∷ es) key rows loaded distinct free n =
      let l' = assigned_to now key e l in
      let more =
        assigned_rows-IsAssigned ls es (key + 1) (upsert l' rows)
          (IsLoaded-saved l' rows ls distinct.0 loaded.1) distinct.1 free.1 (omega arith) in
      record {
        reported =
            λ u. ground (arith, more.reported u, count-upsert (unrevoked_in u) l' l rows loaded.0);
        pool = ground (arith, more.pool, count-upsert (unassigned_in plan) l' l rows loaded.0);
        taken =
            λ x. ground (arith, more.taken x, count-upsert (taken_by plan x) l' l rows loaded.0);
      }
