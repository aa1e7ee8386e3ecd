-- ===== src/Renewal/Copies.antt =====
-- What copying licenses into the future plan does to the numbers of licenses of every plan.
use license_manager.Base.{
  ℕ, ◌+◌, ◌≤◌, ◌≡◌, refl, true, some, none, List, [], ◌∷◌, All, arith, count, length, ◌==◌,
  if◌then◌else◌,
}
use license_manager.Base.Table.{find, upsert, count-upsert, find-upsert_ne}
use license_manager.Base.Table.Keys.{DistinctKeys, IsLoaded, IsLoaded-saved, upsert-DistinctKeys}
use license_manager.Models.{
  License, Plan, license_keyed, is_revocable, unassigned_in, revocable_in, unrevoked_in,
}
use license_manager.Store.{World, ok, bulk_update}
use license_manager.Renewal.{future_of, linked_of, renewed}

-- The rows after a bulk update.
abbrev pub saved : List License → List License → List License
saved [] rows = rows
saved (l ∷ ls) rows = saved ls (upsert l rows)

abbrev pub with_rows : List License → World → World
with_rows rows w = record w { db = record w.db { licenses = rows } }

pub bulk_update_lem :
    (ls : List License) (w : World) → bulk_update ls w ≡ (ok tt, with_rows (saved ls w.licenses) w)
unfolding bulk_update
bulk_update_lem [] w = refl
bulk_update_lem (l ∷ ls) w = bulk_update_lem ls (with_rows (upsert l w.licenses) w)

-- A license that is to be copied into a plan, and one that can take a copy.
abbrev pub IsSource : License → Type 0
IsSource o = is_revocable o.status ≡ true

abbrev pub IsFree : ℕ → License → Type 0
IsFree plan f = unassigned_in plan f ≡ true

module _ (p : Plan) (now : ℕ) where
  -- Copying `n` licenses into the plan `p`.
  pub record IsCopied (n : ℕ) (rows after : List License) : Type 0 where
    pub reported : (u : ℕ) → count (unrevoked_in u) after ≡ count (unrevoked_in u) rows
    pub taken :
        (u : ℕ)
        → count (revocable_in u) after
          ≡ count (revocable_in u) rows + (if p.uuid == u then n else 0)

  IsCopied-one :
      (o f : License) (rows : List License)
      → IsSource o
      → IsFree p.uuid f
      → IsLoaded rows f
      → IsCopied 1 rows (upsert (renewed p now o f) rows)
  IsCopied-one o f rows source free row = record {
    reported = λ u. ground (arith, count-upsert (unrevoked_in u) (renewed p now o f) f rows row);
    taken = λ u. ground (arith, count-upsert (revocable_in u) (renewed p now o f) f rows row);
  }

  pub future_of-IsCopied :
      (os fs rows : List License)
      → All IsSource os
      → All (IsFree p.uuid) fs
      → All (IsLoaded rows) fs
      → DistinctKeys fs
      → length os ≤ length fs
      → IsCopied (length os) rows (saved (future_of p now os fs) rows)
  unfolding future_of
  future_of-IsCopied [] fs rows sources free loaded distinct room = record {
    reported = λ u. refl;
    taken = λ u. ground arith;
  }
  future_of-IsCopied (o ∷ os) [] rows sources free loaded distinct room = ground arith
  future_of-IsCopied (o ∷ os) (f ∷ fs) rows sources free loaded distinct room =
      let f' = renewed p now o f in
      let one = IsCopied-one o f rows sources.0 free.0 loaded.0 in
      let more =
        future_of-IsCopied os fs (upsert f' rows) sources.1 free.1
          (IsLoaded-saved f' rows fs distinct.0 loaded.1) distinct.1 (omega arith) in
      record {
        reported = λ u. ground (arith, one.reported u, more.reported u);
        taken = λ u. ground (arith, one.taken u, more.taken u);
      }

  -- Rows that are not among the future licenses stay as they were read.
  pub future_of_kept :
      (os fs rows : List License) (x : License)
      → find x.uuid fs ≡ none
      → IsLoaded rows x
      → IsLoaded (saved (future_of p now os fs) rows) x
  unfolding future_of
  future_of_kept [] fs rows x other row = row
  future_of_kept (o ∷ os) [] rows x other row = row
  future_of_kept (o ∷ os) (f ∷ fs) rows x other row =
      let f' = renewed p now o f in
      future_of_kept os fs (upsert f' rows) x (ground arith)
        (ground (arith, find-upsert_ne f' x.uuid rows))

  pub future_of-DistinctKeys :
      (os fs rows : List License)
      → DistinctKeys rows
      → DistinctKeys (saved (future_of p now os fs) rows)
  unfolding future_of
  future_of-DistinctKeys [] fs rows d = d
  future_of-DistinctKeys (o ∷ os) [] rows d = d
  future_of-DistinctKeys (o ∷ os) (f ∷ fs) rows d =
      let f' = renewed p now o f in
      future_of-DistinctKeys os fs (upsert f' rows) (upsert-DistinctKeys f' rows d)

  -- Linking the original licenses to their copies moves no number.
  pub linked_of-IsCopied :
      (os fs rows : List License)
      → All (IsLoaded rows) os
      → DistinctKeys os
      → length os ≤ length fs
      → IsCopied 0 rows (saved (linked_of os fs) rows)
  unfolding linked_of
  linked_of-IsCopied [] fs rows loaded distinct room = record {
    reported = λ u. refl;
    taken = λ u. ground arith;
  }
  linked_of-IsCopied (o ∷ os) [] rows loaded distinct room = ground arith
  linked_of-IsCopied (o ∷ os) (f ∷ fs) rows loaded distinct room =
      let o' = record o { renewed_to = some f.uuid } in
      let more =
        linked_of-IsCopied os fs (upsert o' rows) (IsLoaded-saved o' rows os distinct.0 loaded.1)
          distinct.1 (omega arith) in
      record {
        reported =
            λ u. ground (arith, more.reported u, count-upsert (unrevoked_in u) o' o rows loaded.0);
        taken = λ u. ground (arith, more.taken u, count-upsert (revocable_in u) o' o rows loaded.0);
      }

-- A license that is assigned or activated is none of those that can take a copy.
pub source_apart :
    (plan : ℕ) (o : License) (fs rows : List License)
    → IsSource o
    → IsLoaded rows o
    → All (IsFree plan) fs
    → All (IsLoaded rows) fs
    → find o.uuid fs ≡ none
source_apart plan o [] rows source row free loaded = refl
source_apart plan o (f ∷ fs) rows source row free loaded =
    ground (arith, source_apart plan o fs rows source row free.1 loaded.1)

-- The licenses that are copied stay as they were read while the copies are written.
pub future_of_kept_each :
    (p : Plan) (now : ℕ) (os fs rows xs : List License)
    → All IsSource xs
    → All (IsLoaded rows) xs
    → All (IsFree p.uuid) fs
    → All (IsLoaded rows) fs
    → All (IsLoaded (saved (future_of p now os fs) rows)) xs
future_of_kept_each p now os fs rows [] sources loaded free fs_loaded = tt
future_of_kept_each p now os fs rows (x ∷ xs) sources loaded free fs_loaded = (
  future_of_kept p now os fs rows x
      (source_apart p.uuid x fs rows sources.0 loaded.0 free fs_loaded) loaded.0,
  future_of_kept_each p now os fs rows xs sources.1 loaded.1 free fs_loaded,
)
