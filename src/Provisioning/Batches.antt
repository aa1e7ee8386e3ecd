-- ===== src/Provisioning/Batches.antt =====
-- `batch_counts` and `chunks` split a number and a list into parts that fit a batch and make up the
-- whole.
use license_manager.Base.{
  ℕ, zero, suc, ◌+◌, ◌*◌, ◌/◌, ◌%◌, ◌≤◌, ◌<◌, ◌≡◌, refl, sym, ◌∙◌, ap, List, [], ◌∷◌, ◌++◌, All,
  All-append, arith, length, take, drop, map, length-drop, length-take, take-append-drop, ltb,
  if◌then◌else◌,
}
use native.Mathlib.Nat.{suc-mul, div-add-mod', mod-lt}
use license_manager.Provisioning.{batch_counts, repeated, chunks, range}

abbrev pub sum : List ℕ → ℕ
sum [] = 0
sum (n ∷ ns) = n + sum ns

abbrev pub concat : {A : Type 0} → List (List A) → List A
concat [] = []
concat (xs ∷ xss) = xs ++ concat xss

-- A part that is not empty and fits.
abbrev pub FitsIn : ℕ → ℕ → Type 0
FitsIn size n = (0 < n) × (n ≤ size)

sum-append : (ms ns : List ℕ) → sum (ms ++ ns) ≡ sum ms + sum ns
sum-append [] ns = omega arith
sum-append (m ∷ ms) ns = omega (arith, sum-append ms ns)

sum-repeated : (n size : ℕ) → sum (repeated n size) ≡ n * size
sum-repeated zero size = omega arith
sum-repeated (suc n) size = omega (arith, sum-repeated n size, suc-mul n size)

repeated_fits : (n size : ℕ) → 0 < size → All (FitsIn size) (repeated n size)
repeated_fits zero size h = tt
repeated_fits (suc n) size h = ((h, omega arith), repeated_fits n size h)

-- The batches of a total have at least one and at most `batch_size` licenses each, and add up to the
-- total, for every batch size that is not zero.
pub batch_counts_whole :
    (total batch_size : ℕ)
    → 0 < batch_size
    → (sum (batch_counts total batch_size) ≡ total)
      × All (FitsIn batch_size) (batch_counts total batch_size)
unfolding batch_counts
batch_counts_whole total size h =
    let last = total % size in
    let tail = (if ltb 0 last then last ∷ [] else []) in
    let full = repeated (total / size) size in
    let bound = mod-lt total h in
    let whole = div-add-mod' total size in
    (
      ground (arith, sum-append full tail, sum-repeated (total / size) size),
      All-append (FitsIn size) full tail (repeated_fits (total / size) size h) (ground arith),
    )

suc_plus : (n m : ℕ) → suc (n + m) ≡ suc n + m
suc_plus n m = omega arith

module _ {A : Type 0} where
  drop_nil : (n : ℕ) → drop {A = A} n [] ≡ []
  drop_nil zero = refl
  drop_nil (suc n) = refl

  pub drop-drop : (m n : ℕ) (xs : List A) → drop m (drop n xs) ≡ drop (n + m) xs
  drop-drop m zero xs = ap (λ k. drop k xs) (omega arith)
  drop-drop m (suc n) [] = ground (arith, drop_nil m, drop_nil (suc n + m))
  drop-drop m (suc n) (x ∷ xs) = drop-drop m n xs ∙ ap (λ k. drop k (x ∷ xs)) (suc_plus n m)

  pub drop_all : (n : ℕ) (xs : List A) → length xs ≤ n → drop n xs ≡ []
  drop_all zero [] h = refl
  drop_all zero (x ∷ xs) h = ground arith
  drop_all (suc n) [] h = refl
  drop_all (suc n) (x ∷ xs) h = drop_all n xs (omega arith)

  chunks_from :
      (size fuel start : ℕ) (xs : List A)
      → 0 < size
      → length xs ≤ start + fuel
      → concat (map (λ i. take size (drop i xs)) (range fuel start (length xs) size))
        ≡ drop start xs
  chunks_from size zero start xs h enough = sym (drop_all start xs (omega arith))
  chunks_from size (suc fuel) start xs h enough = ground (
    arith,
    chunks_from size fuel (start + size) xs h,
    drop_all start xs,
    drop-drop size start xs,
    take-append-drop size (drop start xs),
  )

  chunks_fit :
      (size fuel start : ℕ) (xs : List A)
      → 0 < size
      → All
          (λ chunk. FitsIn size (length chunk))
          (map (λ i. take size (drop i xs)) (range fuel start (length xs) size))
  chunks_fit size zero start xs h = tt
  chunks_fit size (suc fuel) start xs h = ground (
    arith,
    chunks_fit size fuel (start + size) xs h,
    length-take size (drop start xs),
    length-drop start xs,
  )

  -- The chunks of a list, one after another, are the list, and each has at least one and at most
  -- `chunk_size` members, for every chunk size that is not zero.
  pub chunks_whole :
      (a_list : List A) (chunk_size : ℕ)
      → 0 < chunk_size
      → (concat (chunks a_list chunk_size) ≡ a_list)
        × All (λ chunk. FitsIn chunk_size (length chunk)) (chunks a_list chunk_size)
  unfolding chunks
  chunks_whole xs size h =
      (chunks_from size (length xs) 0 xs h (omega arith), chunks_fit size (length xs) 0 xs h)
