-- ===== src/Base/Exists.antt =====
-- Whether some row passes a test, and which is the first one.
use mathlib.Core.Path.{◌≡◌, refl}
use mathlib.Core.Bool.{Bool, true, false, ◌||◌}
use mathlib.Core.List.{List, [], ◌∷◌, ◌++◌}
use mathlib.Core.Option.{none, some}
use native.Mathlib.Omega.{arith}
use license_manager.Base.Lists.{exists, first, order_by, insert_by}

module _ {ℓ} {A : Type ℓ} where
  exists-insert_by :
      (p : A → Bool) (le : A → A → Bool) (x : A) (ys : List A)
      → exists p (insert_by le x ys) ≡ exists p (x ∷ ys)
  exists-insert_by p le x [] = refl
  exists-insert_by p le x (y ∷ ys) = ground (arith, exists-insert_by p le x ys)

  pub exists-order_by :
      (p : A → Bool) (le : A → A → Bool) (xs : List A) → exists p (order_by le xs) ≡ exists p xs
  exists-order_by p le [] = refl
  exists-order_by p le (x ∷ xs) =
      ground (arith, exists-insert_by p le x (order_by le xs), exists-order_by p le xs)

  pub exists-append :
      (p : A → Bool) (xs ys : List A) → exists p (xs ++ ys) ≡ (exists p xs || exists p ys)
  exists-append p [] ys = refl
  exists-append p (x ∷ xs) ys = ground (arith, exists-append p xs ys)

  -- Stricter tests, and less strict ones
  pub exists_less :
      (p q : A → Bool) (xs : List A)
      → ((x : A) → q x ≡ true → p x ≡ true)
      → exists p xs ≡ false
      → exists q xs ≡ false
  exists_less p q [] h e = refl
  exists_less p q (x ∷ xs) h e = ground (arith, h x, exists_less p q xs h)

  pub exists_more :
      (p q : A → Bool) (xs : List A)
      → ((x : A) → p x ≡ true → q x ≡ true)
      → exists p xs ≡ true
      → exists q xs ≡ true
  exists_more p q [] h e = e
  exists_more p q (x ∷ xs) h e = ground (arith, h x, exists_more p q xs h)

  pub exists-or :
      (p q r : A → Bool) (xs : List A)
      → ((x : A) → r x ≡ true → (p x || q x) ≡ true)
      → exists p xs ≡ false
      → exists q xs ≡ false
      → exists r xs ≡ false
  exists-or p q r [] h a b = refl
  exists-or p q r (x ∷ xs) h a b = ground (arith, h x, exists-or p q r xs h)

  pub first-exists : (p : A → Bool) (xs : List A) → exists p xs ≡ false → first p xs ≡ none
  first-exists p [] h = refl
  first-exists p (x ∷ xs) h = ground (arith, first-exists p xs)

  first-insert_by :
      (p : A → Bool) (le : A → A → Bool) (x : A) (ys : List A)
      → p x ≡ false
      → first p (insert_by le x ys) ≡ first p ys
  first-insert_by p le x [] h = ground arith
  first-insert_by p le x (y ∷ ys) h = ground (arith, first-insert_by p le x ys h)

  -- The only row that passes a test comes first among those that do, in any order.
  pub first-order_by_last :
      (p : A → Bool) (le : A → A → Bool) (xs : List A) (x : A)
      → exists p xs ≡ false
      → p x ≡ true
      → first p (order_by le (xs ++ x ∷ [])) ≡ some x
  first-order_by_last p le [] x h e = ground arith
  first-order_by_last p le (y ∷ xs) x h e =
      ground
        (arith, first-insert_by p le y (order_by le (xs ++ x ∷ [])), first-order_by_last p le xs x)
