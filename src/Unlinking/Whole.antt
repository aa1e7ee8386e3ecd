-- ===== src/Unlinking/Whole.antt =====
-- The command `unlink_expired_licenses` for one customer, and a second run of it.
use license_manager.Base.{
  ℕ, ◌≡◌, refl, ap, ◌∙◌, Bool, true, false, not, ◌&&◌, ◌||◌, Option, some, List, [], ◌∷◌, ◌++◌,
  arith, All, first, map, select, ◌==◌, select-select,
}
use mathlib.Core.List.{append-nil}
use license_manager.Models.{License, Agreement, LicenseEvent}
use license_manager.Store.{World, ok}
use license_manager.Provisioning.{chunks}
use license_manager.Provisioning.Batches.{concat, chunks_whole}
use license_manager.Unlinking.{
  for_user_and_customer, plan_fits, has_other_licenses, is_expired_license, was_unlinked,
  unlinked_event, unlink_expired_licenses,
}
use license_manager.Unlinking.Notes.{
  is_alone, emails_of, noted, calls_of, concat-calls_of, calls_of-none, succeeded, unlink_pages_lem,
}

-- A license that was to be unlinked was noted.
abbrev is_noted : (License → Bool) → List License → License → Bool
is_noted p gone l = not (p l) || was_unlinked l (map unlinked_event gone)

noted_more :
    (p : License → Bool) (x : License) (xs rows : List License)
    → All (λ l. is_noted p (select p xs) l ≡ true) rows
    → All (λ l. is_noted p (select p (x ∷ xs)) l ≡ true) rows
noted_more p x xs [] h = tt
noted_more p x xs (l ∷ rows) h = (ground (arith, h.0), noted_more p x xs rows h.1)

each_noted :
    (p : License → Bool) (rows : List License) → All (λ l. is_noted p (select p rows) l ≡ true) rows
each_noted p [] = tt
each_noted p (l ∷ rows) = (ground arith, noted_more p l rows rows (each_noted p rows))

was_unlinked-append :
    (l : License) (xs ys : List LicenseEvent)
    → was_unlinked l (xs ++ ys) ≡ (was_unlinked l xs || was_unlinked l ys)
was_unlinked-append l [] ys = refl
was_unlinked-append l (x ∷ xs) ys = ground (arith, was_unlinked-append l xs ys)

-- The licenses that the command is to unlink
abbrev pub to_unlink : ℕ → Agreement → World → License → Bool
to_unlink enterprise a w l = is_expired_license a w l && is_alone enterprise w l

-- What was noted is not what the search for other licenses reads.
alone_still :
    (enterprise : ℕ) (w : World) (calls : List (List (Option ℕ))) (gone : List License)
    (l : License)
    → is_alone enterprise (noted enterprise calls gone w) l ≡ is_alone enterprise w l
unfolding has_other_licenses for_user_and_customer plan_fits
alone_still enterprise w calls gone l = refl

none_again :
    (enterprise : ℕ) (a : Agreement) (w : World) (calls : List (List (Option ℕ)))
    (gone rows : List License)
    → All (λ l. is_noted (to_unlink enterprise a w) gone l ≡ true) rows
    → select (to_unlink enterprise a (noted enterprise calls gone w)) rows ≡ []
none_again enterprise a w calls gone [] h = refl
none_again enterprise a w calls gone (l ∷ rows) h = ground (
  arith,
  h.0,
  alone_still enterprise w calls gone l,
  was_unlinked-append l w.license_events (map unlinked_event gone),
  none_again enterprise a w calls gone rows h.1,
)

noted_nothing : (enterprise : ℕ) (w : World) → noted enterprise [] [] w ≡ w
noted_nothing enterprise w = rw append-nil (rw append-nil refl)

-- The pages of the licenses that the command reads, one after another
both_filters :
    (enterprise : ℕ) (a : Agreement) (w : World)
    → select
        (is_alone enterprise w)
        (concat (chunks (select (is_expired_license a w) w.licenses) 100))
      ≡ select (to_unlink enterprise a w) w.licenses
both_filters enterprise a w =
    ap (select (is_alone enterprise w))
      (chunks_whole (select (is_expired_license a w) w.licenses) 100 (omega arith)).0
    ∙ select-select (is_alone enterprise w) (is_expired_license a w) (to_unlink enterprise a w)
        w.licenses (λ l. refl)

unlink_lem :
    (client : List (Option ℕ) → Bool) (enterprise : ℕ) (a : Agreement) (w : World)
    → ((m : List (Option ℕ)) → client m ≡ false)
    → first (λ (x : Agreement). x.enterprise_customer_uuid == enterprise) w.agreements ≡ some a
    → unlink_expired_licenses client enterprise true w ≡ (
      ok tt,
      noted enterprise
          (calls_of
            (is_alone enterprise w)
            (chunks (select (is_expired_license a w) w.licenses) 100))
          (select (to_unlink enterprise a w) w.licenses)
          w,
    )
unfolding unlink_expired_licenses
unlink_lem client enterprise a w answers found =
    let cs = chunks (select (is_expired_license a w) w.licenses) 100 in
    rw found (
      unlink_pages_lem client answers enterprise cs w
      ∙ ap (λ g. succeeded (noted enterprise (calls_of (is_alone enterprise w) cs) g w))
          (both_filters enterprise a w))

-- Where the API answers and the customer has an agreement: the command, run for that customer,
-- unlinks in calls the emails of just those licenses that are assigned or activated, not renewed,
-- not noted before and of a plan that expired more than 90 days ago, and whose learner has no
-- license of the customer in an active, current plan; it notes those licenses, changes none, and a
-- second run does nothing.
pub unlink_expired_licenses_whole :
    (client : List (Option ℕ) → Bool) (enterprise : ℕ) (a : Agreement) (w : World)
    → ((m : List (Option ℕ)) → client m ≡ false)
    → first (λ (x : Agreement). x.enterprise_customer_uuid == enterprise) w.agreements ≡ some a
    → (calls : List (List (Option ℕ))) × (concat calls
        ≡ emails_of (select (to_unlink enterprise a w) w.licenses))
      × (unlink_expired_licenses client enterprise true w
          ≡ (ok tt, noted enterprise calls (select (to_unlink enterprise a w) w.licenses) w))
      × (unlink_expired_licenses client enterprise true
            (noted enterprise calls (select (to_unlink enterprise a w) w.licenses) w)
          ≡ (ok tt, noted enterprise calls (select (to_unlink enterprise a w) w.licenses) w))
unlink_expired_licenses_whole client enterprise a w answers found =
    let cs = chunks (select (is_expired_license a w) w.licenses) 100 in
    let calls = calls_of (is_alone enterprise w) cs in
    let gone = select (to_unlink enterprise a w) w.licenses in
    let w' = noted enterprise calls gone w in
    let again = chunks (select (is_expired_license a w') w'.licenses) 100 in
    let none_left : select (to_unlink enterprise a w') w'.licenses ≡ [] =
      none_again enterprise a w calls gone w.licenses
        (each_noted (to_unlink enterprise a w) w.licenses) in
    let no_calls : calls_of (is_alone enterprise w') again ≡ [] =
      calls_of-none (is_alone enterprise w') again (both_filters enterprise a w' ∙ none_left) in
    (
      calls,
      concat-calls_of (is_alone enterprise w) cs ∙ ap emails_of (both_filters enterprise a w),
      unlink_lem client enterprise a w answers found,
      unlink_lem client enterprise a w' answers found
          ∙ ap
              (λ c.
                succeeded (noted enterprise c (select (to_unlink enterprise a w') w'.licenses) w'))
              no_calls
          ∙ ap (λ g. succeeded (noted enterprise [] g w')) none_left
          ∙ ap succeeded (noted_nothing enterprise w'),
    )
