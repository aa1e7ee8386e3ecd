-- ===== src/Base/Table/Keys.antt =====
-- Tables in which no two rows share a key, and what selecting, saving and appending do to them.
use Prim.Native.Nat.{ℕ, zero, suc, ◌+◌, ◌<◌}
use mathlib.Core.Path.{◌≡◌, refl}
use mathlib.Core.Bool.{Bool, true, false, not}
use mathlib.Core.Logic.{◌≢◌}
use license_manager.Base.Tests.{◌==◌}
use mathlib.Core.List.{List, [], ◌∷◌, ◌++◌}
use mathlib.Core.Option.{none, some}
use native.Mathlib.Omega.{arith}
use license_manager.Base.Lists.{
  take, All, select, first, count, exists, length, order_by, insert_by,
}
use license_manager.Base.Table.Rows.{Keyed, find, upsert, find-upsert_ne}

module _ {A : Type 0} ⦃k : Keyed A⦄ where
  abbrev pub DistinctKeys : List A → Type 0
  DistinctKeys [] = Unit
  DistinctKeys (x ∷ rows) = (find (k.key x) rows ≡ none) × DistinctKeys rows

  -- A row that was read from the table and is still as it was read.
  abbrev pub IsLoaded : List A → A → Type 0
  IsLoaded rows a = find (k.key a) rows ≡ some a

  IsLoaded-cons :
      (x : A) (rows : List A) (ls : List A)
      → find (k.key x) rows ≡ none
      → All (IsLoaded rows) ls
      → All (IsLoaded (x ∷ rows)) ls
  IsLoaded-cons x rows [] h hs = tt
  IsLoaded-cons x rows (l ∷ ls) h hs = (ground arith, IsLoaded-cons x rows ls h hs.1)

  -- The rows that a query returns are the rows of the table under their keys.
  pub select-IsLoaded :
      (p : A → Bool) (rows : List A) → DistinctKeys rows → All (IsLoaded rows) (select p rows)
  select-IsLoaded p [] h = tt
  select-IsLoaded p (x ∷ rows) h =
      let rest = IsLoaded-cons x rows (select p rows) h.0 (select-IsLoaded p rows h.1) in
      ground arith

  find-select-none :
      (u : ℕ) (p : A → Bool) (rows : List A) → find u rows ≡ none → find u (select p rows) ≡ none
  find-select-none u p [] e = refl
  find-select-none u p (x ∷ rows) e = ground (arith, find-select-none u p rows)

  pub select-DistinctKeys :
      (p : A → Bool) (rows : List A) → DistinctKeys rows → DistinctKeys (select p rows)
  select-DistinctKeys p [] h = tt
  select-DistinctKeys p (x ∷ rows) h =
      let rest = select-DistinctKeys p rows h.1 in
      ground (arith, find-select-none (k.key x) p rows h.0)

  pub upsert-DistinctKeys :
      (a : A) (rows : List A) → DistinctKeys rows → DistinctKeys (upsert a rows)
  upsert-DistinctKeys a [] h = (refl, tt)
  upsert-DistinctKeys a (x ∷ rows) h =
      ground (arith, upsert-DistinctKeys a rows h.1, find-upsert_ne a (k.key x) rows)

  pub find-append_some :
      (u : ℕ) (xs ys : List A) {a : A} → find u xs ≡ some a → find u (xs ++ ys) ≡ some a
  find-append_some u [] ys e = cc
  find-append_some u (x ∷ xs) ys {a} e = ground (arith, find-append_some u xs ys {a = a})

  pub find-append_none :
      (u : ℕ) (xs ys : List A) → find u xs ≡ none → find u ys ≡ none → find u (xs ++ ys) ≡ none
  find-append_none u [] ys e f = f
  find-append_none u (x ∷ xs) ys e f = ground (arith, find-append_none u xs ys)

  -- Rows whose keys are all below a bound, followed by rows whose keys all reach it.
  pub append-DistinctKeys :
      (n : ℕ) (xs ys : List A)
      → DistinctKeys xs
      → DistinctKeys ys
      → All (λ x. k.key x < n) xs
      → ((u : ℕ) → u < n → find u ys ≡ none)
      → DistinctKeys (xs ++ ys)
  append-DistinctKeys n [] ys hx hy below above = hy
  append-DistinctKeys n (x ∷ xs) ys hx hy below above = (
    find-append_none (k.key x) xs ys hx.0 (above (k.key x) below.0),
    append-DistinctKeys n xs ys hx.1 hy below.1 above,
  )

  -- Rows that were read stay as they were read when another row is saved and new ones come behind.
  pub IsLoaded-upsert :
      (a : A) (rows new : List A) (ls : List A)
      → find (k.key a) ls ≡ none
      → All (IsLoaded rows) ls
      → All (IsLoaded (upsert a rows ++ new)) ls
  IsLoaded-upsert a rows new [] h hs = tt
  IsLoaded-upsert a rows new (l ∷ ls) h hs = (
    find-append_some (k.key l) (upsert a rows) new
        (rw (find-upsert_ne a (k.key l) rows (ground arith)) hs.0),
    IsLoaded-upsert a rows new ls (ground arith) hs.1,
  )

  -- The same without new rows.
  pub IsLoaded-saved :
      (a : A) (rows ls : List A)
      → find (k.key a) ls ≡ none
      → All (IsLoaded rows) ls
      → All (IsLoaded (upsert a rows)) ls
  IsLoaded-saved a rows [] h hs = tt
  IsLoaded-saved a rows (l ∷ ls) h hs = (
    rw (find-upsert_ne a (k.key l) rows (ground arith)) hs.0,
    IsLoaded-saved a rows ls (ground arith) hs.1,
  )

  -- The row that a query returns first is the row of the table under its key.
  pub first-IsLoaded :
      (p : A → Bool) (rows : List A) {a : A}
      → DistinctKeys rows
      → first p rows ≡ some a
      → IsLoaded rows a
  first-IsLoaded p [] h e = cc
  first-IsLoaded p (x ∷ rows) {a} h e = ground (arith, first-IsLoaded p rows {a = a} h.1)

  others_all :
      (a : A) (rows : List A)
      → find (k.key a) rows ≡ none
      → length (select (λ x. not (k.key x == k.key a)) rows) ≡ length rows
  others_all a [] e = refl
  others_all a (x ∷ rows) e = ground (arith, others_all a rows)

  -- All the rows but one.
  pub length-others :
      (a : A) (rows : List A)
      → DistinctKeys rows
      → IsLoaded rows a
      → length (select (λ x. not (k.key x == k.key a)) rows) + 1 ≡ length rows
  length-others a [] h e = cc
  length-others a (x ∷ rows) h e = ground (arith, length-others a rows h.1, others_all a rows)

  pub find-others :
      (a : A) (rows : List A) → find (k.key a) (select (λ x. not (k.key x == k.key a)) rows) ≡ none
  find-others a [] = refl
  find-others a (x ∷ rows) = ground (arith, find-others a rows)

  pub find-insert_by-none :
      (le : A → A → Bool) (x : A) (u : ℕ) (rows : List A)
      → u ≢ k.key x
      → find u rows ≡ none
      → find u (insert_by le x rows) ≡ none
  find-insert_by-none le x u [] h e = ground arith
  find-insert_by-none le x u (y ∷ rows) h e = ground (arith, find-insert_by-none le x u rows h)

  pub find-order_by-none :
      (le : A → A → Bool) (u : ℕ) (rows : List A)
      → find u rows ≡ none
      → find u (order_by le rows) ≡ none
  find-order_by-none le u [] e = refl
  find-order_by-none le u (x ∷ rows) e =
      ground (arith, find-insert_by-none le x u (order_by le rows), find-order_by-none le u rows)

  -- Sorting the rows moves no key.
  insert_by-DistinctKeys :
      (le : A → A → Bool) (x : A) (rows : List A)
      → find (k.key x) rows ≡ none
      → DistinctKeys rows
      → DistinctKeys (insert_by le x rows)
  insert_by-DistinctKeys le x [] h d = (refl, tt)
  insert_by-DistinctKeys le x (y ∷ rows) h d =
      ground (arith, insert_by-DistinctKeys le x rows, find-insert_by-none le x (k.key y) rows)

  pub order_by-DistinctKeys :
      (le : A → A → Bool) (rows : List A) → DistinctKeys rows → DistinctKeys (order_by le rows)
  order_by-DistinctKeys le [] h = tt
  order_by-DistinctKeys le (x ∷ rows) h =
      insert_by-DistinctKeys le x (order_by le rows) (find-order_by-none le (k.key x) rows h.0)
        (order_by-DistinctKeys le rows h.1)

  -- A row that passes a test counts.
  pub count-IsLoaded :
      (p : A → Bool) (u : ℕ) (rows : List A) {a : A}
      → find u rows ≡ some a
      → p a ≡ true
      → 0 < count p rows
  count-IsLoaded p u [] e h = cc
  count-IsLoaded p u (x ∷ rows) {a} e h = ground (arith, count-IsLoaded p u rows {a = a})

  pub exists-none :
      (p q : A → Bool) (rows : List A)
      → count p rows ≡ 0
      → ((x : A) → q x ≡ true → p x ≡ true)
      → exists q rows ≡ false
  exists-none p q [] n f = refl
  exists-none p q (x ∷ rows) n f = ground (arith, exists-none p q rows, f x)

  -- The only row that passes a test has no other row beside it.
  pub exists-others :
      (p q : A → Bool) (a : A) (rows : List A)
      → DistinctKeys rows
      → IsLoaded rows a
      → p a ≡ true
      → count p rows ≡ 1
      → ((x : A) → q x ≡ true → (p x ≡ true) × (k.key x ≢ k.key a))
      → exists q rows ≡ false
  exists-others p q a [] d e h n f = refl
  exists-others p q a (x ∷ rows) d e h n f = ground (
    arith,
    exists-others p q a rows d.1,
    f x,
    exists-none p q rows,
    count-IsLoaded p (k.key a) rows {a = a},
  )

  find-take-none : (u n : ℕ) (rows : List A) → find u rows ≡ none → find u (take n rows) ≡ none
  find-take-none u zero rows e = refl
  find-take-none u (suc n) [] e = refl
  find-take-none u (suc n) (x ∷ rows) e = ground (arith, find-take-none u n rows)

  pub take-DistinctKeys : (n : ℕ) (rows : List A) → DistinctKeys rows → DistinctKeys (take n rows)
  take-DistinctKeys zero rows d = tt
  take-DistinctKeys (suc n) [] d = tt
  take-DistinctKeys (suc n) (x ∷ rows) d =
      (find-take-none (k.key x) n rows d.0, take-DistinctKeys n rows d.1)
