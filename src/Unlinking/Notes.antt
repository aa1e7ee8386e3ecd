-- ===== src/Unlinking/Notes.antt =====
-- The calls and the notes that the pages of licenses make.
use license_manager.Base.{
  ℕ, ◌≡◌, refl, sym, ap, ◌∙◌, Bool, true, false, not, Option, List, [], ◌∷◌, ◌++◌, arith, map,
  select,
}
use mathlib.Core.List.{append_assoc, append-nil, map-append}
use license_manager.Models.{License}
use license_manager.Store.{World, Result, ok, unlink_users}
use license_manager.Store.Counts.{then_runs}
use license_manager.Provisioning.Batches.{concat}
use license_manager.Unlinking.{
  for_user_and_customer, plan_fits, has_other_licenses, unlinked_event, bulk_unlink, unlink_page,
  unlink_pages,
}

-- The learner of the license has no other license of the customer in an active, current plan.
abbrev pub is_alone : ℕ → World → License → Bool
is_alone enterprise w l = not (has_other_licenses enterprise w l)

abbrev pub emails_of : List License → List (Option ℕ)
emails_of = map (λ (l : License). l.user_email)

-- The world after calls about some licenses
abbrev pub noted : ℕ → List (List (Option ℕ)) → List License → World → World
noted enterprise calls gone w = record w {
  db = record w.db { license_events = w.license_events ++ map unlinked_event gone };
  tasks = w.tasks ++ map (unlink_users enterprise) calls;
}

abbrev call_of : List License → List (List (Option ℕ))
call_of [] = []
call_of (l ∷ ls) = emails_of (l ∷ ls) ∷ []

-- The calls for pages of licenses, of which some are to be unlinked
abbrev pub calls_of : (License → Bool) → List (List License) → List (List (Option ℕ))
calls_of p [] = []
calls_of p (c ∷ cs) = call_of (select p c) ++ calls_of p cs

concat-call_of :
    (ls : List License) (rest : List (List (Option ℕ)))
    → concat (call_of ls ++ rest) ≡ emails_of ls ++ concat rest
concat-call_of [] rest = refl
concat-call_of (l ∷ ls) rest = refl

select-append :
    (p : License → Bool) (xs ys : List License) → select p (xs ++ ys) ≡ select p xs ++ select p ys
select-append p [] ys = refl
select-append p (x ∷ xs) ys = ground (arith, select-append p xs ys)

pub concat-calls_of :
    (p : License → Bool) (cs : List (List License))
    → concat (calls_of p cs) ≡ emails_of (select p (concat cs))
concat-calls_of p [] = refl
concat-calls_of p (c ∷ cs) =
    concat-call_of (select p c) (calls_of p cs)
    ∙ ap (◌++◌ (emails_of (select p c))) (concat-calls_of p cs)
    ∙ sym (map-append (λ (l : License). l.user_email) (select p c) (select p (concat cs)))
    ∙ sym (ap emails_of (select-append p c (concat cs)))

append-empty : (xs ys : List License) → xs ++ ys ≡ [] → (xs ≡ []) × (ys ≡ [])
append-empty [] ys e = (refl, e)
append-empty (x ∷ xs) ys e = ground arith

pub calls_of-none :
    (p : License → Bool) (cs : List (List License)) → select p (concat cs) ≡ [] → calls_of p cs ≡ []
calls_of-none p [] e = refl
calls_of-none p (c ∷ cs) e =
    let (here, rest) =
      append-empty (select p c) (select p (concat cs)) (sym (select-append p c (concat cs)) ∙ e) in
    rw here (calls_of-none p cs rest)

abbrev pub succeeded : World → Result Unit × World
succeeded w = (ok tt, w)

noted-noted :
    (enterprise : ℕ) (calls more : List (List (Option ℕ))) (gone later : List License) (w : World)
    → noted enterprise more later (noted enterprise calls gone w)
      ≡ noted enterprise (calls ++ more) (gone ++ later) w
noted-noted enterprise calls more gone later w = ground (
  arith,
  map-append unlinked_event gone later,
  map-append (unlink_users enterprise) calls more,
  append_assoc w.license_events (map unlinked_event gone) (map unlinked_event later),
  append_assoc w.tasks (map (unlink_users enterprise) calls) (map (unlink_users enterprise) more),
)

module _ (client : List (Option ℕ) → Bool) (answers : (m : List (Option ℕ)) → client m ≡ false)
    (enterprise : ℕ) where
  unlink_some :
      (gone : List License) (w : World) (ls : List License)
      → select (is_alone enterprise w) ls ≡ gone
      → unlink_page client enterprise true ls w ≡ (ok tt, noted enterprise (call_of gone) gone w)
  unfolding unlink_page bulk_unlink
  unlink_some [] w ls e = rw e (rw append-nil (rw append-nil refl))
  unlink_some (l ∷ gone) w ls e = rw e (rw (answers (emails_of (l ∷ gone))) refl)

  pub unlink_pages_lem :
      (cs : List (List License)) (w : World)
      → unlink_pages client enterprise true cs w ≡ (
        ok tt,
        noted enterprise
            (calls_of (is_alone enterprise w) cs)
            (select (is_alone enterprise w) (concat cs))
            w,
      )
  unfolding unlink_pages has_other_licenses for_user_and_customer plan_fits
  unlink_pages_lem [] w = rw append-nil (rw append-nil refl)
  unlink_pages_lem (c ∷ cs) w =
      let alone = is_alone enterprise w in
      let gone = select alone c in
      let w1 = noted enterprise (call_of gone) gone w in
      let later = select alone (concat cs) in
      let calls = calls_of alone cs in
      then_runs (unlink_page client enterprise true c) (unlink_pages client enterprise true cs) w w1
        (unlink_some gone w c refl)
        (unlink_pages_lem cs w1
          ∙ ap succeeded (noted-noted enterprise (call_of gone) calls gone later w)
          ∙ ap (λ g. succeeded (noted enterprise (call_of gone ++ calls) g w))
              (sym (select-append alone c (concat cs))))
