-- ===== src/Base/Pages.antt =====
-- Keyset pagination: rows in the order of their keys, cut into pages that each start behind the last
-- key of the page before.
use Prim.Native.Nat.{ℕ, zero, suc, ◌<◌, ◌≤◌}
use mathlib.Core.Path.{◌≡◌, refl}
use mathlib.Core.Bool.{Bool, true, false, ◌&&◌}
use mathlib.Core.Logic.{inl, inr}
use mathlib.Core.List.{List, [], ◌∷◌}
use mathlib.Core.Option.{Option, none, some}
use native.Mathlib.Omega.{arith}
use license_manager.Base.Tests.{ltb, leb, ◌==◌, Bool-cases, Option-cases}
use license_manager.Base.Lists.{
  take, All, select, exists, count, count-imp, order_by, insert_by, All-insert_by, All-map_imp,
  All-take,
}
use license_manager.Base.Table.{Keyed, find}
use license_manager.Base.Table.Keys.{DistinctKeys, find-order_by-none}

module _ {A : Type 0} ⦃k : Keyed A⦄ where
  -- `order_by('pk')`
  abbrev pub by_key : A → A → Bool
  by_key a b = leb (k.key a) (k.key b)

  abbrev pub has_key : ℕ → List A → Bool
  has_key u = exists (λ (x : A). k.key x == u)

  -- `list(queryset.values_list('pk', flat=True))[-1]`
  abbrev pub last_key : List A → Option ℕ
  last_key [] = none
  last_key (x ∷ xs) =
      let rest = last_key xs in elim rest [ none ↦ some (k.key x) | some u ↦ some u ]

  -- `pk__gt=offset`
  abbrev pub behind : Option ℕ → A → Bool
  behind none x = true
  behind (some u) x = ltb u (k.key x)

  abbrev pub Ascending : List A → Type 0
  Ascending [] = Unit
  Ascending (x ∷ xs) = All (λ (y : A). k.key x < k.key y) xs × Ascending xs

  insert_by-Ascending :
      (x : A) (ys : List A)
      → find (k.key x) ys ≡ none
      → Ascending ys
      → Ascending (insert_by by_key x ys)
  insert_by-Ascending x [] e h = (tt, tt)
  insert_by-Ascending x (y ∷ ys) e h = elim (Bool-cases (by_key x y)) [
    | inl le ↦
        let lt : k.key x < k.key y = ground arith in
        let above =
          All-map_imp (λ (z : A). k.key y < k.key z) (λ (z : A). k.key x < k.key z) ys
            (λ z b. omega arith) h.0 in
        ground arith
    | inr gt ↦
        let lt : k.key y < k.key x = ground arith in
        let rest = insert_by-Ascending x ys (ground arith) h.1 in
        let above = All-insert_by (λ (z : A). k.key y < k.key z) by_key x ys lt h.0 in ground arith
  ]

  pub order_by-Ascending : (xs : List A) → DistinctKeys xs → Ascending (order_by by_key xs)
  order_by-Ascending [] d = tt
  order_by-Ascending (x ∷ xs) d =
      insert_by-Ascending x (order_by by_key xs) (find-order_by-none by_key (k.key x) xs d.0)
        (order_by-Ascending xs d.1)

  has_key-insert_by :
      (le : A → A → Bool) (u : ℕ) (x : A) (ys : List A)
      → has_key u (insert_by le x ys) ≡ has_key u (x ∷ ys)
  has_key-insert_by le u x [] = refl
  has_key-insert_by le u x (y ∷ ys) = ground (arith, has_key-insert_by le u x ys)

  pub has_key-order_by :
      (le : A → A → Bool) (u : ℕ) (xs : List A) → has_key u (order_by le xs) ≡ has_key u xs
  has_key-order_by le u [] = refl
  has_key-order_by le u (x ∷ xs) =
      ground (arith, has_key-insert_by le u x (order_by le xs), has_key-order_by le u xs)

  pub find-has_key : (u : ℕ) (xs : List A) → find u xs ≡ none → has_key u xs ≡ false
  find-has_key u [] e = refl
  find-has_key u (x ∷ xs) e = ground (arith, find-has_key u xs)

  pub has_key-select_none :
      (u : ℕ) (p : A → Bool) (xs : List A) → has_key u xs ≡ false → has_key u (select p xs) ≡ false
  has_key-select_none u p [] e = refl
  has_key-select_none u p (x ∷ xs) e = ground (arith, has_key-select_none u p xs)

  -- In an ascending list, the first rows are those up to the key of the last of them.
  pub last_key-above :
      (n : ℕ) (xs : List A) {u : ℕ} → All (λ (y : A). n < k.key y) xs → last_key xs ≡ some u → n < u
  last_key-above n [] h e = cc
  last_key-above n (x ∷ xs) {u} h e = ground (arith, last_key-above n xs {u = u} h.1)

  has_key-above :
      (n u : ℕ) (xs : List A) → All (λ (y : A). n < k.key y) xs → u ≤ n → has_key u xs ≡ false
  has_key-above n u [] h e = refl
  has_key-above n u (x ∷ xs) h e = let below = h.0 in ground (arith, has_key-above n u xs h.1)

  pub last_key-none : (u : ℕ) (xs : List A) → last_key xs ≡ none → has_key u xs ≡ false
  last_key-none u [] e = refl
  last_key-none u (x ∷ xs) e = ground arith

  pub has_key-take :
      (n : ℕ) (xs : List A) (u last : ℕ)
      → Ascending xs
      → last_key (take n xs) ≡ some last
      → has_key u (take n xs) ≡ (leb u last && has_key u xs)
  has_key-take zero xs u last a e = cc
  has_key-take (suc n) [] u last a e = cc
  has_key-take (suc n) (x ∷ xs) u last a e = elim (Option-cases (last_key (take n xs))) [
    | inl none_left ↦ ground (arith, last_key-none u (take n xs), has_key-above (k.key x) u xs a.0)
    | inr (v, found) ↦
        let above =
          last_key-above (k.key x) (take n xs) {u = v}
            (All-take (λ (y : A). k.key x < k.key y) n xs a.0) found in
        let rest = has_key-take n xs u v a.1 found in ground arith
  ]

  has_key-select_cons :
      (x : A) (p : A → Bool) (xs ys : List A)
      → find (k.key x) ys ≡ none
      → All (λ (y : A). has_key (k.key y) (select p xs) ≡ p y) ys
      → All (λ (y : A). has_key (k.key y) (select p (x ∷ xs)) ≡ p y) ys
  has_key-select_cons x p xs [] e h = tt
  has_key-select_cons x p xs (y ∷ ys) e h =
      (ground (arith, h.0), has_key-select_cons x p xs ys (ground arith) h.1)

  -- A row of the table is found among those that pass a test just when it passes.
  pub has_key-select :
      (p : A → Bool) (xs : List A)
      → DistinctKeys xs
      → All (λ (x : A). has_key (k.key x) (select p xs) ≡ p x) xs
  has_key-select p [] d = tt
  has_key-select p (x ∷ xs) d = (
    ground (arith, has_key-select_none (k.key x) p xs, find-has_key (k.key x) xs d.0),
    has_key-select_cons x p xs xs d.0 (has_key-select p xs d.1),
  )

  -- No page is left only where no row is.
  pub last_key-take : (n : ℕ) (xs : List A) → 0 < n → last_key (take n xs) ≡ none → xs ≡ []
  last_key-take zero xs h e = ground arith
  last_key-take (suc n) [] h e = refl
  last_key-take (suc n) (x ∷ xs) h e = ground arith

  pub has_key-last : (xs : List A) {v : ℕ} → last_key xs ≡ some v → has_key v xs ≡ true
  has_key-last [] e = cc
  has_key-last (x ∷ xs) {v} e = elim (Option-cases (last_key xs)) [
    | inl n ↦ ground arith
    | inr (u, s) ↦ ground (arith, has_key-last xs {v = u} s)
  ]

  -- A row behind the last row of a page is behind what all rows of the page are behind.
  pub last_key-behind :
      (offset : Option ℕ) (xs : List A) {v : ℕ}
      → All (λ (y : A). behind offset y ≡ true) xs
      → last_key xs ≡ some v
      → (x : A) → behind (some v) x ≡ true
      → behind offset x ≡ true
  last_key-behind none xs h e x b = refl
  last_key-behind (some o) xs {v} h e x b =
      let above =
        last_key-above o xs {u = v}
          (All-map_imp (λ (y : A). behind (some o) y ≡ true) (λ (y : A). o < k.key y) xs
            (λ y c. ground arith) h)
          e in
      ground arith

  -- Fewer rows pass a stricter test.
  pub count-less :
      (p q : A → Bool) (v : ℕ) (xs : List A)
      → ((x : A) → q x ≡ true → p x ≡ true)
      → ((x : A) → k.key x ≡ v → q x ≡ false)
      → has_key v (select p xs) ≡ true
      → count q xs < count p xs
  count-less p q v [] imp out h = cc
  count-less p q v (x ∷ xs) imp out h =
      ground (arith, imp x, out x, count-imp p q xs imp, count-less p q v xs imp out)
