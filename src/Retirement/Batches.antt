-- ===== src/Retirement/Batches.antt =====
-- The batches that are made beforehand and read one after the other.
use license_manager.Base.{
  ℕ, zero, suc, ◌≡◌, ◌<◌, ◌≤◌, refl, sym, ap, ◌∙◌, true, ◌&&◌, none, some, Option, List, ◌∷◌, inl,
  inr, arith, count, length, select, order_by, leb, if◌then◌else◌, Option-cases, length-select,
  count-le-length, All-take, All-order_by, All-map_imp, select-All,
}
use license_manager.Base.Table.Keys.{
  DistinctKeys, IsLoaded, select-DistinctKeys, take-DistinctKeys, order_by-DistinctKeys,
  select-IsLoaded,
}
use license_manager.Base.Pages.{by_key, last_key, has_key}
use license_manager.Models.{License, license_keyed}
use license_manager.Store.{World, Action}
use license_manager.Store.Counts.{then_runs}
use license_manager.Store.Changed.{
  changed, changed-changed, changed-unfound, changed_alike, select-changed, changed-DistinctKeys,
}
use license_manager.Retirement.{
  Query, Tables, tables, for_each, offsets, chain_each, batch, retire_batches,
}
use license_manager.Retirement.Pages.{
  left, page, page_covers, behind-page, page_shrinks, page_bound, page_empty, left_behind,
  batch-as_page,
}
use license_manager.Retirement.Pass.{Writes, Retires, for_each-Writes}

module _ (q : Query) (f : Tables → License → License) (act : License → Action Unit)
    (r : Retires q f act) (n : ℕ) (h : 0 < n) where
  -- The first page is written.
  page-Writes :
      (offset : Option ℕ) (w : World) (t : Tables) (rows : List License)
      → tables w ≡ t
      → w.licenses ≡ rows
      → DistinctKeys rows
      → Writes
          (for_each act (page q n t offset rows))
          w
          t
          (changed (λ l. has_key l.uuid (page q n t offset rows)) (f t) rows)
  page-Writes offset w t rows et er d =
      let found = select (left q t offset) rows in
      let keys = select-DistinctKeys (left q t offset) rows d in
      for_each-Writes r (page q n t offset rows) w t rows et er d
        (take-DistinctKeys n (order_by by_key found) (order_by-DistinctKeys by_key found keys))
        (All-take (IsLoaded rows) n (order_by by_key found)
          (All-order_by (IsLoaded rows) by_key found (select-IsLoaded (left q t offset) rows d)))
        (All-take (λ l. q t l ≡ true) n (order_by by_key found)
          (All-order_by (λ l. q t l ≡ true) by_key found
            (All-map_imp (λ l. left q t offset l ≡ true) (λ l. q t l ≡ true) found
              (λ l b. ground arith) (select-All (left q t offset) rows))))

  -- What is left is found as before.
  left_after :
      (offset : Option ℕ) (t : Tables) (rows : List License) (v : ℕ)
      → DistinctKeys rows
      → last_key (page q n t offset rows) ≡ some v
      → select
          (left q t (some v))
          (changed (λ l. has_key l.uuid (page q n t offset rows)) (f t) rows)
        ≡ select (left q t (some v)) rows
  left_after offset t rows v d e =
      select-changed (λ l. has_key l.uuid (page q n t offset rows)) (left q t (some v)) (f t) rows
        (λ l b. ground (arith, page_bound q n t offset rows v l.uuid d e))
        (λ l b. ground (arith, page_bound q n t offset rows v l.uuid d e, r.keeps t l))

  -- The rows of a page and then those behind it are all the rows.
  pages_join :
      (offset : Option ℕ) (t : Tables) (rows : List License) (v : ℕ)
      → DistinctKeys rows
      → last_key (page q n t offset rows) ≡ some v
      → changed
          (left q t (some v))
          (f t)
          (changed (λ l. has_key l.uuid (page q n t offset rows)) (f t) rows)
        ≡ changed (left q t offset) (f t) rows
  pages_join offset t rows v d e =
      let here = λ (l : License). has_key l.uuid (page q n t offset rows) in
      let now = λ (l : License). if here l then f t l else l in
      changed-changed here (left q t (some v)) (left q t offset) (f t) rows (
        All-map_imp (λ (l : License). here l ≡ (leb l.uuid v && left q t offset l))
          (λ (l : License).
            (if left q t (some v) (now l) then f t (now l) else now l)
            ≡ (if left q t offset l then f t l else l))
          rows (λ l m. ground (arith, r.keeps t l, behind-page q n t offset rows v e l))
          (page_covers q n t offset rows v d e))

  -- A batch that is written, then the other batches.
  first_then :
      (offset : Option ℕ) (offs : List (Option ℕ)) (w : World) (t : Tables) (written : List License)
      (ls : List License) (first : Writes (for_each act ls) w t written) (rows rows' : List License)
      → Writes (chain_each q n act offs) first.after t rows
      → batch q n offset w ≡ ls
      → rows ≡ rows'
      → Writes (chain_each q n act (offset ∷ offs)) w t rows'
  unfolding chain_each
  first_then offset offs w t written ls first rows rows' rest e join = record {
    after = rest.after;
    runs =
        rw e (
          then_runs (for_each act ls) (chain_each q n act offs) w first.after first.runs rest.runs);
    same_tables = rest.same_tables;
    written = rest.written ∙ join;
  }

  -- The offsets that were made of the rows at the start find the rows that are left now.
  chain-Writes :
      (fuel : ℕ) (offset : Option ℕ) (w w0 : World) (t : Tables) (rows : List License)
      → tables w ≡ t
      → w.licenses ≡ rows
      → tables w0 ≡ t
      → select (left q t offset) w0.licenses ≡ select (left q t offset) rows
      → DistinctKeys rows
      → count (left q t offset) rows ≤ fuel
      → Writes
          (chain_each q n act (offsets fuel q n offset w0))
          w
          t
          (changed (left q t offset) (f t) rows)
  unfolding offsets chain_each
  chain-Writes zero offset w w0 t rows et er et0 er0 d enough = record {
    after = w;
    runs = refl;
    same_tables = et;
    written = er ∙ sym (changed-unfound (left q t offset) (f t) rows (omega arith));
  }
  chain-Writes (suc fuel) offset w w0 t rows et er et0 er0 d enough =
      elim (Option-cases (last_key (page q n t offset rows))) [
        | inl e ↦ rw (batch-as_page q n offset w0 t rows et0 er0) (
            rw e (record {
              after = w;
              runs = refl;
              same_tables = et;
              written =
                  er
                  ∙ sym (
                      changed-unfound (left q t offset) (f t) rows
                        (page_empty q n t offset rows h e));
            }))
        | inr (v, e) ↦
            let first = page-Writes offset w t rows et er d in
            let written = changed (λ l. has_key l.uuid (page q n t offset rows)) (f t) rows in
            let rest =
              chain-Writes fuel (some v) first.after w0 t written first.same_tables first.written
                et0
                (sym (left_behind q n offset t rows v w0.licenses e)
                  ∙ ap (select (left q t (some v))) er0
                  ∙ left_behind q n offset t rows v rows e
                  ∙ sym (left_after offset t rows v d e))
                (changed-DistinctKeys (λ l. has_key l.uuid (page q n t offset rows)) (f t) rows
                  (r.keeps t) d)
                (omega (
                  arith,
                  ap length (left_after offset t rows v d e),
                  length-select (left q t (some v)) written,
                  length-select (left q t (some v)) rows,
                  page_shrinks q n t offset rows v d e,
                )) in
            rw (batch-as_page q n offset w0 t rows et0 er0) (
              rw e (
                first_then offset (offsets fuel q n (some v) w0) w t written
                  (page q n t offset rows) first (changed (left q t (some v)) (f t) written)
                  (changed (left q t offset) (f t) rows) rest
                  (batch-as_page q n offset w t rows et (ap (select (left q t offset)) er))
                  (pages_join offset t rows v d e)))
      ]

  -- A pass writes every license that the query finds, and no other.
  pub retire_batches-Writes :
      (w : World) (t : Tables) (rows : List License)
      → tables w ≡ t
      → w.licenses ≡ rows
      → DistinctKeys rows
      → Writes (retire_batches q n act) w t (changed (q t) (f t) rows)
  unfolding retire_batches
  retire_batches-Writes w t rows et er d =
      let bound : count (left q t none) rows ≤ length w.licenses =
        omega (arith, ap length er, count-le-length (left q t none) rows) in
      let all =
        chain-Writes (length w.licenses) none w w t rows et er et (ap (select (left q t none)) er) d
          bound in
      record {
        after = all.after;
        runs = all.runs;
        same_tables = all.same_tables;
        written = all.written ∙ changed_alike (left q t none) (q t) (f t) rows (λ l. ground arith);
      }
