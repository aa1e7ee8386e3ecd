-- ===== src/Base/Table/Rows.antt =====
-- Reading and saving a row.
use Prim.Native.Nat.{ℕ, ◌+◌}
use mathlib.Core.Path.{◌≡◌}
use mathlib.Core.Logic.{◌≢◌}
use mathlib.Core.Bool.{Bool}
use mathlib.Core.List.{List, [], ◌∷◌}
use mathlib.Core.Option.{Option, none, some}
use native.Mathlib.Omega.{arith}
use license_manager.Base.Tests.{◌==◌, if◌then◌else◌, to_ℕ}
use license_manager.Base.Lists.{count, All}

-- A type of rows with a primary key.
pub record Keyed (A : Type 0) : Type 0 where
  pub key : A → ℕ

module _ {A : Type 0} ⦃k : Keyed A⦄ where
  -- `objects.get(pk=u)`
  abbrev pub find : ℕ → List A → Option A
  find u [] = none
  find u (x ∷ rows) = let rest = find u rows in if k.key x == u then some x else rest

  -- `row.save()`: an UPDATE of the row with this key, or an INSERT where there is none.
  abbrev pub upsert : A → List A → List A
  upsert a [] = a ∷ []
  upsert a (x ∷ rows) =
      let rest = upsert a rows in if k.key x == k.key a then a ∷ rows else x ∷ rest

  pub key-find : (u : ℕ) (rows : List A) {a : A} → find u rows ≡ some a → k.key a ≡ u
  key-find u [] e = cc
  key-find u (x ∷ rows) {a} e = ground (arith, key-find u rows {a = a})

  -- Saving a row moves its count from what the row was to what it is now.
  pub count-upsert :
      (p : A → Bool) (a old : A) (rows : List A)
      → find (k.key a) rows ≡ some old
      → count p (upsert a rows) + to_ℕ (p old) ≡ count p rows + to_ℕ (p a)
  count-upsert p a old [] e = cc
  count-upsert p a old (x ∷ rows) e = ground (arith, count-upsert p a old rows)

  pub find-upsert_self : (a : A) (rows : List A) → find (k.key a) (upsert a rows) ≡ some a
  find-upsert_self a [] = ground arith
  find-upsert_self a (x ∷ rows) = ground (arith, find-upsert_self a rows)

  pub find-upsert_ne :
      (a : A) (u : ℕ) (rows : List A) → u ≢ k.key a → find u (upsert a rows) ≡ find u rows
  find-upsert_ne a u [] h = ground arith
  find-upsert_ne a u (x ∷ rows) h = ground (arith, find-upsert_ne a u rows)

  pub All-upsert :
      (P : A → Type 0) (a : A) (rows : List A) → All P rows → P a → All P (upsert a rows)
  All-upsert P a [] h ha = (ha, tt)
  All-upsert P a (x ∷ rows) h ha = ground (arith, All-upsert P a rows h.1 ha)

  pub All-find :
      (P : A → Type 0) (u : ℕ) (rows : List A) {a : A} → All P rows → find u rows ≡ some a → P a
  All-find P u [] h e = cc
  All-find P u (x ∷ rows) {a} h e = ground (arith, All-find P u rows {a = a} h.1)
