-- ===== src/Retirement/Pages.antt =====
-- The pages of a query: which rows a page holds, and what is left behind it.
use license_manager.Base.{
  ℕ, zero, suc, ◌+◌, ◌≡◌, ◌<◌, ◌≤◌, refl, sym, ap, ◌∙◌, Bool, true, ◌&&◌, none, some, Option, List,
  [], ◌∷◌, inl, inr, arith, All, count, length, select, take, order_by, leb, Option-cases,
  select-select, length-select, length-order_by, All-take, All-order_by, All-map_imp, select-All,
}
use license_manager.Base.Table.Keys.{DistinctKeys, select-DistinctKeys}
use license_manager.Base.Pages.{
  by_key, behind, last_key, has_key, order_by-Ascending, has_key-order_by, has_key-take,
  has_key-select, last_key-take, has_key-last, last_key-behind, count-less,
}
use license_manager.Models.{License, license_keyed}
use license_manager.Store.{World}
use license_manager.Retirement.{Query, Tables, tables, offsets, batch}

-- What a query still finds behind an offset
abbrev pub left : Query → Tables → Option ℕ → License → Bool
left q t offset l = q t l && behind offset l

abbrev pub page : Query → ℕ → Tables → Option ℕ → List License → List License
page q n t offset rows = take n (order_by by_key (select (left q t offset) rows))

module _ (q : Query) (n : ℕ) where
  -- The rows up to the last key of a page are the rows of the page.
  pub page_covers :
      (t : Tables) (offset : Option ℕ) (rows : List License) (v : ℕ)
      → DistinctKeys rows
      → last_key (page q n t offset rows) ≡ some v
      → All
          (λ (l : License).
            has_key l.uuid (page q n t offset rows) ≡ (leb l.uuid v && left q t offset l))
          rows
  page_covers t offset rows v d e =
      let found = select (left q t offset) rows in
      let up = order_by-Ascending found (select-DistinctKeys (left q t offset) rows d) in
      All-map_imp (λ (l : License). has_key l.uuid found ≡ left q t offset l)
        (λ (l : License).
          has_key l.uuid (page q n t offset rows) ≡ (leb l.uuid v && left q t offset l))
        rows
        (λ l m. ground (
          arith,
          has_key-take n (order_by by_key found) l.uuid v up e,
          has_key-order_by by_key l.uuid found,
        ))
        (has_key-select (left q t offset) rows d)

  pub behind-page :
      (t : Tables) (offset : Option ℕ) (rows : List License) (v : ℕ)
      → last_key (page q n t offset rows) ≡ some v
      → (l : License) → behind (some v) l ≡ true
      → behind offset l ≡ true
  behind-page t offset rows v e =
      let found = select (left q t offset) rows in
      last_key-behind offset (page q n t offset rows) {v = v}
        (All-take (λ (l : License). behind offset l ≡ true) n (order_by by_key found)
          (All-order_by (λ (l : License). behind offset l ≡ true) by_key found
            (All-map_imp (λ (l : License). left q t offset l ≡ true)
              (λ (l : License). behind offset l ≡ true) found (λ l b. ground arith)
              (select-All (left q t offset) rows))))
        e

  pub page_shrinks :
      (t : Tables) (offset : Option ℕ) (rows : List License) (v : ℕ)
      → DistinctKeys rows
      → last_key (page q n t offset rows) ≡ some v
      → count (left q t (some v)) rows < count (left q t offset) rows
  page_shrinks t offset rows v d e =
      let found = select (left q t offset) rows in
      let up = order_by-Ascending found (select-DistinctKeys (left q t offset) rows d) in
      let here = has_key-last (page q n t offset rows) {v = v} e in
      let taken = has_key-take n (order_by by_key found) v v up e in
      let ordered = has_key-order_by by_key v found in
      count-less (left q t offset) (left q t (some v)) v rows
        (λ l b. ground (arith, behind-page t offset rows v e l)) (λ l b. ground arith)
        (ground arith)

  pub page_bound :
      (t : Tables) (offset : Option ℕ) (rows : List License) (v u : ℕ)
      → DistinctKeys rows
      → last_key (page q n t offset rows) ≡ some v
      → has_key u (page q n t offset rows) ≡ true
      → leb u v ≡ true
  page_bound t offset rows v u d e b =
      let found = select (left q t offset) rows in
      let up = order_by-Ascending found (select-DistinctKeys (left q t offset) rows d) in
      ground (arith, has_key-take n (order_by by_key found) u v up e)

  pub page_empty :
      (t : Tables) (offset : Option ℕ) (rows : List License)
      → 0 < n
      → last_key (page q n t offset rows) ≡ none
      → count (left q t offset) rows ≡ 0
  page_empty t offset rows h e =
      let found = select (left q t offset) rows in
      let empty = last_key-take n (order_by by_key found) h e in
      omega
        (arith, ap length empty, length-order_by by_key found, length-select (left q t offset) rows)

  -- The part of a query that is behind a page.
  pub left_behind :
      (offset : Option ℕ) (t : Tables) (rows : List License) (v : ℕ) (xs : List License)
      → last_key (page q n t offset rows) ≡ some v
      → select (left q t (some v)) (select (left q t offset) xs) ≡ select (left q t (some v)) xs
  left_behind offset t rows v xs e =
      select-select (left q t (some v)) (left q t offset) (left q t (some v)) xs
        (λ l. ground (arith, behind-page t offset rows v e l))

  pub batch-as_page :
      (offset : Option ℕ) (w : World) (t : Tables) (rows : List License)
      → tables w ≡ t
      → select (left q t offset) w.licenses ≡ select (left q t offset) rows
      → batch q n offset w ≡ page q n t offset rows
  batch-as_page offset w t rows et er = rw (et) (ap (λ found. take n (order_by by_key found)) er)

  offsets_stop :
      (fuel : ℕ) (offset : Option ℕ) (w : World)
      → last_key (page q n (tables w) offset w.licenses) ≡ none
      → offsets fuel q n offset w ≡ []
  unfolding offsets
  offsets_stop zero offset w e = refl
  offsets_stop (suc fuel) offset w e = rw e refl

  offsets_next :
      (fuel v : ℕ) (offset : Option ℕ) (w : World)
      → last_key (page q n (tables w) offset w.licenses) ≡ some v
      → offsets (suc fuel) q n offset w ≡ offset ∷ offsets fuel q n (some v) w
  unfolding offsets
  offsets_next fuel v offset w e = rw e refl

  page_nothing :
      (offset : Option ℕ) (t : Tables) (rows : List License)
      → DistinctKeys rows
      → count (left q t offset) rows ≡ 0
      → last_key (page q n t offset rows) ≡ none
  page_nothing offset t rows d z = elim (Option-cases (last_key (page q n t offset rows))) [
    | inl e ↦ e
    | inr (v, e) ↦ ground (arith, page_shrinks t offset rows v d e)
  ]

  -- The loop `while queryset.exists()` of `get_licenses_exceeding_purge_duration` ends: with a batch
  -- size above zero, where no two licenses share a uuid, as many rounds as the query finds licenses
  -- are enough, and more of them yield the same batches.
  pub offsets_ends :
      (fuel more : ℕ) (offset : Option ℕ) (w : World)
      → 0 < n
      → DistinctKeys w.licenses
      → count (left q (tables w) offset) w.licenses ≤ fuel
      → offsets (fuel + more) q n offset w ≡ offsets fuel q n offset w
  offsets_ends zero more offset w h d enough =
      let last = page_nothing offset (tables w) w.licenses d (omega arith) in
      offsets_stop (0 + more) offset w last ∙ sym (offsets_stop 0 offset w last)
  offsets_ends (suc fuel) more offset w h d enough =
      elim (Option-cases (last_key (page q n (tables w) offset w.licenses))) [
        | inl e ↦
            offsets_stop (suc fuel + more) offset w e ∙ sym (offsets_stop (suc fuel) offset w e)
        | inr (v, e) ↦
            let rest =
              offsets_ends fuel more (some v) w h d
                (omega (arith, page_shrinks (tables w) offset w.licenses v d e)) in
            let shift : suc fuel + more ≡ suc (fuel + more) = omega arith in
            ap (λ k. offsets k q n offset w) shift
            ∙ offsets_next (fuel + more) v offset w e
            ∙ ap (◌∷◌ offset) rest
            ∙ sym (offsets_next fuel v offset w e)
      ]
