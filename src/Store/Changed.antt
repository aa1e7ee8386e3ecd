-- ===== src/Store/Changed.antt =====
-- A table of licenses in which the rows that pass a test were changed.
use license_manager.Base.{
  ℕ, ◌≡◌, refl, ap, Bool, true, false, List, [], ◌∷◌, none, arith, map, All, count, select,
  if◌then◌else◌, ◌==◌,
}
use license_manager.Base.Table.{find, upsert}
use license_manager.Base.Table.Keys.{DistinctKeys, IsLoaded}
use license_manager.Models.{License, license_keyed}

-- The rows after those that pass a test were changed.
abbrev pub changed : (License → Bool) → (License → License) → List License → List License
changed p f = map (λ (l : License). if p l then f l else l)

pub changed_nothing :
    (f : License → License) (rows : List License) → changed (λ l. false) f rows ≡ rows
changed_nothing f [] = refl
changed_nothing f (x ∷ rows) = ap (◌∷◌ x) (changed_nothing f rows)

pub All-intro : {P : License → Type 0} (rows : List License) → ((l : License) → P l) → All P rows
All-intro [] h = tt
All-intro (x ∷ rows) h = (h x, All-intro rows h)

changed-none :
    (u : ℕ) (f : License → License) (rows : List License)
    → find u rows ≡ none
    → changed (λ l. l.uuid == u) f rows ≡ rows
changed-none u f [] e = refl
changed-none u f (x ∷ rows) e = ground (arith, changed-none u f rows)

pub upsert-changed :
    (f : License → License) (l : License) (rows : List License)
    → (f l).uuid ≡ l.uuid
    → DistinctKeys rows
    → IsLoaded rows l
    → upsert (f l) rows ≡ changed (λ x. x.uuid == l.uuid) f rows
upsert-changed f l [] k d e = cc
upsert-changed f l (x ∷ rows) k d e =
    ground (arith, upsert-changed f l rows k d.1, changed-none l.uuid f rows)

pub changed-changed :
    (p q r : License → Bool) (f : License → License) (rows : List License)
    → All
        (λ l.
          (if q (if p l then f l else l)
            then f (if p l then f l else l)
            else (if p l then f l else l))
          ≡ (if r l then f l else l))
        rows
    → changed q f (changed p f rows) ≡ changed r f rows
changed-changed p q r f [] h = refl
changed-changed p q r f (x ∷ rows) h = ground (arith, h.0, changed-changed p q r f rows h.1)

-- Nothing passes a test that no row passes.
pub changed-unfound :
    (p : License → Bool) (f : License → License) (rows : List License)
    → count p rows ≡ 0
    → changed p f rows ≡ rows
changed-unfound p f [] e = refl
changed-unfound p f (x ∷ rows) e = ground (arith, changed-unfound p f rows)

pub changed_alike :
    (p q : License → Bool) (f : License → License) (rows : List License)
    → ((l : License) → p l ≡ q l)
    → changed p f rows ≡ changed q f rows
changed_alike p q f [] h = refl
changed_alike p q f (x ∷ rows) h = ground (arith, h x, changed_alike p q f rows h)

-- A test on rows that were not changed finds what it found.
pub select-changed :
    (p q : License → Bool) (f : License → License) (rows : List License)
    → ((l : License) → q l ≡ true → p l ≡ false)
    → ((l : License) → p l ≡ true → q (f l) ≡ false)
    → select q (changed p f rows) ≡ select q rows
select-changed p q f [] i j = refl
select-changed p q f (x ∷ rows) i j = ground (arith, i x, j x, select-changed p q f rows i j)

pub changed-find :
    (p : License → Bool) (f : License → License) (u : ℕ) (rows : List License)
    → ((l : License) → (f l).uuid ≡ l.uuid)
    → find u rows ≡ none
    → find u (changed p f rows) ≡ none
changed-find p f u [] h e = refl
changed-find p f u (x ∷ rows) h e = ground (arith, h x, changed-find p f u rows h)

pub changed-DistinctKeys :
    (p : License → Bool) (f : License → License) (rows : List License)
    → ((l : License) → (f l).uuid ≡ l.uuid)
    → DistinctKeys rows
    → DistinctKeys (changed p f rows)
changed-DistinctKeys p f [] h d = tt
changed-DistinctKeys p f (x ∷ rows) h d =
    ground (arith, h x, changed-find p f x.uuid rows h d.0, changed-DistinctKeys p f rows h d.1)

pub changed_same :
    (p q : License → Bool) (f : License → License) (rows : List License)
    → All (λ l. p l ≡ q l) rows
    → changed p f rows ≡ changed q f rows
changed_same p q f [] h = refl
changed_same p q f (x ∷ rows) h = ground (arith, h.0, changed_same p q f rows h.1)

-- A count of what the change keeps
pub count-changed :
    (p q : License → Bool) (f : License → License) (rows : List License)
    → ((l : License) → q (f l) ≡ q l)
    → count q (changed p f rows) ≡ count q rows
count-changed p q f [] h = refl
count-changed p q f (x ∷ rows) h = ground (arith, h x, count-changed p q f rows h)
