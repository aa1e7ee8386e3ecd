-- ===== src/Retirement/Pass.antt =====
-- Writing the licenses that a query finds, one after the other.
use license_manager.Base.{◌≡◌, refl, sym, ap, ◌∙◌, true, List, [], ◌∷◌, arith, All, ◌==◌}
use license_manager.Base.Table.{upsert}
use license_manager.Base.Table.Keys.{DistinctKeys, IsLoaded, IsLoaded-saved, upsert-DistinctKeys}
use license_manager.Base.Pages.{has_key, find-has_key}
use license_manager.Models.{License, license_keyed}
use license_manager.Store.{World, Action, ok}
use license_manager.Store.Counts.{then_runs}
use license_manager.Store.Changed.{
  changed, changed-changed, changed_nothing, upsert-changed, All-intro,
}
use license_manager.Retirement.{Query, Tables, tables, for_each}

-- An action that succeeds, and leaves these tables beside these licenses.
pub record Writes (act : Action Unit) (w : World) (t : Tables) (rows : List License) : Type 0 where
  pub after : World
  pub runs : act w ≡ (ok tt, after)
  pub same_tables : tables after ≡ t
  pub written : after.licenses ≡ rows

-- An action that writes a license that the query finds as `f` makes it, and no other license.
pub record Retires (q : Query) (f : Tables → License → License) (act : License → Action Unit)
    : Type 0 where
  pub keeps : (t : Tables) (l : License) → (f t l).uuid ≡ l.uuid
  pub step :
      (l : License) (w : World)
      → IsLoaded w.licenses l
      → q (tables w) l ≡ true
      → Writes (act l) w (tables w) (upsert (f (tables w) l) w.licenses)

module _ {q : Query} {f : Tables → License → License} {act : License → Action Unit}
    (r : Retires q f act) where
  pub for_each-Writes :
      (ls : List License) (w : World) (t : Tables) (rows : List License)
      → tables w ≡ t
      → w.licenses ≡ rows
      → DistinctKeys rows
      → DistinctKeys ls
      → All (IsLoaded rows) ls
      → All (λ l. q t l ≡ true) ls
      → Writes (for_each act ls) w t (changed (λ l. has_key l.uuid ls) (f t) rows)
  unfolding for_each
  for_each-Writes [] w t rows et er d dl loaded found = record {
    after = w;
    runs = refl;
    same_tables = et;
    written = er ∙ sym (changed_nothing (f t) rows);
  }
  for_each-Writes (l ∷ ls) w t rows et er d dl loaded found =
      let first = r.step l w (rw er loaded.0) (rw et found.0) in
      let key = r.keeps t l in
      let rest =
        for_each-Writes ls first.after t (upsert (f t l) rows) (first.same_tables ∙ et) (cc)
          (upsert-DistinctKeys (f t l) rows d) dl.1
          (IsLoaded-saved (f t l) rows ls (rw key dl.0) loaded.1) found.1 in
      record {
        after = rest.after;
        runs = then_runs (act l) (for_each act ls) w first.after first.runs rest.runs;
        same_tables = rest.same_tables;
        written =
            rest.written
            ∙ ap (changed (λ x. has_key x.uuid ls) (f t))
                (upsert-changed (f t) l rows key d loaded.0)
            ∙ changed-changed (λ x. x.uuid == l.uuid) (λ x. has_key x.uuid ls)
                (λ x. has_key x.uuid (l ∷ ls)) (f t) rows
                (All-intro rows (λ x. ground (arith, r.keeps t x, find-has_key l.uuid ls dl.0)));
      }
