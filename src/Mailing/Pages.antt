-- ===== src/Mailing/Pages.antt =====
-- Sorted rows that are filtered, and rows that are cut into pages: by keys, and by slices of a list.
use license_manager.Base.{
  ℕ, zero, suc, ◌+◌, ◌≡◌, ◌<◌, ◌≤◌, refl, sym, ap, ◌∙◌, Bool, none, some, List, [], ◌∷◌, inl, inr,
  arith, All, length, select, take, drop, map, order_by, insert_by, ltb, Option-cases, Bool-cases,
  All-take, All-map_imp, All-select, length-drop, if◌then◌else◌,
}
use license_manager.Base.Table.{Keyed}
use license_manager.Base.Table.Keys.{DistinctKeys}
use license_manager.Base.Pages.{
  by_key, behind, last_key, Ascending, order_by-Ascending, last_key-above,
}
use license_manager.Provisioning.{chunks, range}
use license_manager.Provisioning.Batches.{drop_all, drop-drop}

module _ {A : Type 0} ⦃k : Keyed A⦄ where
  abbrev AllFrom : ℕ → List A → Type 0
  AllFrom u xs = All (λ (y : A). u ≤ k.key y) xs

  insert_by-first : (x : A) (xs : List A) → AllFrom (k.key x) xs → insert_by by_key x xs ≡ x ∷ xs
  insert_by-first x [] h = refl
  insert_by-first x (y ∷ ys) h = let le = h.0 in ground arith

  -- Filtering sorted rows, and inserting into them, in either order
  select-insert_by :
      (p : A → Bool) (x : A) (ys : List A)
      → Ascending ys
      → select p (insert_by by_key x ys)
        ≡ (if p x then insert_by by_key x (select p ys) else select p ys)
  select-insert_by p x [] a = ground arith
  select-insert_by p x (y ∷ ys) a = elim (Bool-cases (by_key x y)) [
    | inl le ↦
        let above =
          All-map_imp (λ (z : A). k.key y < k.key z) (λ (z : A). k.key x ≤ k.key z) ys
            (λ z b. ground arith) a.0 in
        let first =
          insert_by-first x (select p (y ∷ ys))
            (All-select (λ (z : A). k.key x ≤ k.key z) p (y ∷ ys) (ground arith, above)) in
        ground arith
    | inr gt ↦ ground (arith, select-insert_by p x ys a.1)
  ]

  pub order_by-select :
      (p : A → Bool) (xs : List A)
      → DistinctKeys xs
      → order_by by_key (select p xs) ≡ select p (order_by by_key xs)
  order_by-select p [] d = refl
  order_by-select p (x ∷ xs) d = ground (
    arith,
    select-insert_by p x (order_by by_key xs) (order_by-Ascending xs d.1),
    order_by-select p xs d.1,
  )

  select-behind-All :
      (v : ℕ) (xs : List A) → All (λ (y : A). v < k.key y) xs → select (behind (some v)) xs ≡ xs
  select-behind-All v [] h = refl
  select-behind-All v (x ∷ xs) h = let here = h.0 in ground (arith, select-behind-All v xs h.1)

  drop-last_key : (n : ℕ) (xs : List A) → last_key (take n xs) ≡ none → drop n xs ≡ xs
  drop-last_key zero xs e = refl
  drop-last_key (suc n) [] e = refl
  drop-last_key (suc n) (x ∷ xs) e = ground arith

  pub last_key-length :
      (n : ℕ) (xs : List A) {v : ℕ} → last_key (take n xs) ≡ some v → 0 < length xs
  last_key-length zero [] e = cc
  last_key-length (suc n) [] e = cc
  last_key-length n (x ∷ xs) e = omega arith

  -- The rows of a sorted list that are behind its first ones are what is left without them.
  pub select-behind :
      (n v : ℕ) (xs : List A)
      → Ascending xs
      → last_key (take n xs) ≡ some v
      → select (behind (some v)) xs ≡ drop n xs
  select-behind zero v xs a e = cc
  select-behind (suc n) v [] a e = cc
  select-behind (suc n) v (x ∷ xs) a e = elim (Option-cases (last_key (take n xs))) [
    | inl empty ↦
        let v_eq : k.key x ≡ v = ground arith in
        ground (arith, drop-last_key n xs empty, select-behind-All v xs (rw (sym v_eq) a.0))
    | inr (u, found) ↦
        let above =
          last_key-above (k.key x) (take n xs) {u = u}
            (All-take (λ (y : A). k.key x < k.key y) n xs a.0) found in
        ground (arith, select-behind n u xs a.1 found)
  ]

module _ {A : Type 0} where
  pub select_alike :
      (p q : A → Bool) (xs : List A) → ((x : A) → p x ≡ q x) → select p xs ≡ select q xs
  select_alike p q [] h = refl
  select_alike p q (x ∷ xs) h = ground (arith, h x, select_alike p q xs h)

  -- A list cut into slices, by rounds
  abbrev pub slices : ℕ → ℕ → List A → List (List A)
  slices zero n xs = []
  slices (suc fuel) n [] = []
  slices (suc fuel) n (x ∷ xs) = take n (x ∷ xs) ∷ slices fuel n (drop n (x ∷ xs))

  pub slices_next :
      (n fuel : ℕ) (xs : List A)
      → 0 < length xs
      → slices (suc fuel) n xs ≡ take n xs ∷ slices fuel n (drop n xs)
  slices_next n fuel [] h = ground arith
  slices_next n fuel (x ∷ xs) h = refl

  slices-range :
      (n fuel more start : ℕ) (xs : List A)
      → 0 < n
      → length xs ≤ start + fuel
      → length xs ≤ start + more
      → slices fuel n (drop start xs)
        ≡ map (λ i. take n (drop i xs)) (range more start (length xs) n)
  slices-range n zero zero start xs h a b = refl
  slices-range n zero (suc more) start xs h a b = ground arith
  slices-range n (suc fuel) zero start xs h a b = rw (drop_all start xs (omega (arith, b))) refl
  slices-range n (suc fuel) (suc more) start xs h a b = elim (Bool-cases (ltb start (length xs))) [
    | inl within ↦
        slices_next n fuel (drop start xs) (ground (arith, length-drop start xs))
        ∙ ap (λ ys. take n (drop start xs) ∷ slices fuel n ys) (drop-drop n start xs)
        ∙ ap (◌∷◌ (take n (drop start xs)))
            (slices-range n fuel more (start + n) xs h (omega arith) (omega arith))
        ∙ (rw within refl)
    | inr past ↦ ground (arith, drop_all start xs (ground arith))
  ]

  -- The chunks of a list, by as many rounds as it has members, or more
  pub slices-chunks :
      (n fuel : ℕ) (xs : List A) → 0 < n → length xs ≤ fuel → slices fuel n xs ≡ chunks xs n
  unfolding chunks
  slices-chunks n fuel xs h enough =
      slices-range n fuel (length xs) 0 xs h (omega (arith, enough)) (omega arith)
