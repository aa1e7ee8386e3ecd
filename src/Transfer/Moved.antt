-- ===== src/Transfer/Moved.antt =====
-- What a transfer moves, and what it reports.
use license_manager.Base.{
  ℕ, ◌+◌, ◌≡◌, refl, ap, ◌∙◌, Bool, false, ◌&&◌, ◌||◌, none, some, List, [], ◌∷◌, ◌++◌, All, exists,
  exists-append, Bool-cases, inl, inr, arith, count, map, select, ◌==◌,
}
use license_manager.Base.Table.Keys.{DistinctKeys, select-IsLoaded, select-DistinctKeys}
use license_manager.Base.Pages.{has_key, has_key-select}
use license_manager.Models.{License, license_keyed, in_plan, is_revocable}
use license_manager.Store.{World, ok}
use license_manager.Store.Changed.{
  changed, changed_nothing, changed_same, changed_alike, changed-changed, changed-DistinctKeys,
  All-intro,
}
use license_manager.Renewal.Copies.{saved, with_rows, bulk_update_lem}
use license_manager.Reminders.Batch.{saved-changed}
use license_manager.Transfer.{
  TransferJob, queries_of, moved_to, transfer_each, finish, process, chunk_size,
}
use license_manager.Provisioning.{chunks}
use license_manager.Provisioning.Batches.{concat, chunks_whole}

-- The licenses that a job is to move: those of the old plan, and unless it moves all of them only the
-- assigned and activated ones that its uuids name.
abbrev pub is_to_move : TransferJob → License → Bool
is_to_move job l =
    in_plan job.old_subscription_plan l
    && (job.transfer_all || (is_revocable l.status && exists (λ u. u == l.uuid) job.license_uuids))

abbrev pub in_new_plan : ℕ → License → License
in_new_plan plan l = record l { subscription_plan = plan }

abbrev is_selected : List (License → Bool) → License → Bool
is_selected ps l = exists (λ p. p l) ps

-- A query that selects licenses of a plan only.
abbrev IsFromOld : ℕ → (License → Bool) → Type 0
IsFromOld old p = (l : License) → in_plan old l ≡ false → p l ≡ false

none_selected :
    (old : ℕ) (ps : List (License → Bool)) (l : License)
    → All (IsFromOld old) ps
    → in_plan old l ≡ false
    → is_selected ps l ≡ false
none_selected old [] l ours e = refl
none_selected old (p ∷ ps) l ours e = ground (arith, ours.0 l e, none_selected old ps l ours.1 e)

-- The uuids of the rows that a query finds
count-uuids :
    (p : License → Bool) (u : ℕ) (rows : List License)
    → count (λ v. v == u) (map (λ (l : License). l.uuid) (select p rows))
      ≡ count (λ l. p l && l.uuid == u) rows
count-uuids p u [] = refl
count-uuids p u (x ∷ rows) = ground (arith, count-uuids p u rows)

count-uuids_append :
    (u : ℕ) (xs ys : List ℕ)
    → count (λ v. v == u) (xs ++ ys) ≡ count (λ v. v == u) xs + count (λ v. v == u) ys
count-uuids_append u [] ys = ground arith
count-uuids_append u (x ∷ xs) ys = ground (arith, count-uuids_append u xs ys)

count_nothing : (u : ℕ) (rows : List License) → 0 ≡ count (λ l. false && l.uuid == u) rows
count_nothing u [] = refl
count_nothing u (x ∷ rows) = ground (arith, count_nothing u rows)

count_alike :
    (p q : License → Bool) (u : ℕ) (rows : List License)
    → ((l : License) → p l ≡ q l)
    → count (λ l. p l && l.uuid == u) rows ≡ count (λ l. q l && l.uuid == u) rows
count_alike p q u [] h = refl
count_alike p q u (x ∷ rows) h = ground (arith, h x, count_alike p q u rows h)

saved-moved :
    (p : License → Bool) (new : ℕ) (rows : List License)
    → DistinctKeys rows
    → saved (moved_to new (select p rows)) rows ≡ changed p (in_new_plan new) rows
saved-moved p new rows keys =
    saved-changed (in_new_plan new) (select p rows) rows (λ l. refl) keys
      (select-DistinctKeys p rows keys) (select-IsLoaded p rows keys)
    ∙ changed_same (λ l. has_key l.uuid (select p rows)) p (in_new_plan new) rows
        (has_key-select p rows keys)

module _ (old new : ℕ) (apart : (new == old) ≡ false) where
  -- What the first query and the later ones find, which run when its licenses have moved
  count-later :
      (p : License → Bool) (ps : List (License → Bool)) (u : ℕ) (rows : List License)
      → All (IsFromOld old) ps
      → count (λ l. p l && l.uuid == u) rows
          + count (λ l. is_selected ps l && l.uuid == u) (changed p (in_new_plan new) rows)
        ≡ count (λ l. is_selected (p ∷ ps) l && l.uuid == u) rows
  count-later p ps u [] ours = refl
  count-later p ps u (x ∷ rows) ours =
      let moved = none_selected old ps (in_new_plan new x) ours apart in
      ground (arith, moved, count-later p ps u rows ours)

  changed-later :
      (p : License → Bool) (ps : List (License → Bool)) (rows : List License)
      → All (IsFromOld old) ps
      → changed (is_selected ps) (in_new_plan new) (changed p (in_new_plan new) rows)
        ≡ changed (is_selected (p ∷ ps)) (in_new_plan new) rows
  changed-later p ps rows ours =
      changed-changed p (is_selected ps) (is_selected (p ∷ ps)) (in_new_plan new) rows
        (All-intro rows (λ l. ground (arith, none_selected old ps (in_new_plan new l) ours apart)))

  module _ (job : TransferJob) (wet : job.is_dry_run ≡ false)
      (target : job.new_subscription_plan ≡ new) where
    transfer_each_lem :
        (ps : List (License → Bool)) (w : World)
        → DistinctKeys w.licenses
        → All (IsFromOld old) ps
        → (uuids : List ℕ) × (transfer_each job ps w
            ≡ (ok uuids, with_rows (changed (is_selected ps) (in_new_plan new) w.licenses) w))
          × ((u : ℕ)
              → count (λ v. v == u) uuids ≡ count (λ l. is_selected ps l && l.uuid == u) w.licenses)
    unfolding transfer_each
    transfer_each_lem [] w keys ours = (
      [],
      ground (arith, changed_nothing (in_new_plan new) w.licenses),
      λ u. count_nothing u w.licenses,
    )
    transfer_each_lem (p ∷ ps) w keys ours =
        let found = select p w.licenses in
        let rows = changed p (in_new_plan new) w.licenses in
        let (uuids, run, told) =
          transfer_each_lem ps (with_rows rows w)
            (changed-DistinctKeys p (in_new_plan new) w.licenses (λ l. refl) keys) ours.1 in
        (
          map (λ l. l.uuid) found ++ uuids,
          ground (
            arith,
            wet,
            target,
            bulk_update_lem (moved_to new found) w,
            saved-moved p new w.licenses keys,
            run,
            changed-later p ps w.licenses ours.1,
          ),
          λ u. ground (
            arith,
            count-uuids_append u (map (λ (l : License). l.uuid) found) uuids,
            count-uuids p u w.licenses,
            told u,
            count-later p ps u w.licenses ours.1,
          ),
        )

abbrev named_in : ℕ → List ℕ → License → Bool
named_in old chunk l = in_plan old l && is_revocable l.status && exists (λ u. u == l.uuid) chunk

queries-IsFromOld :
    (old : ℕ) (parts : List (List ℕ)) → All (IsFromOld old) (map (named_in old) parts)
queries-IsFromOld old [] = tt
queries-IsFromOld old (part ∷ rest) = ((λ l h. ground arith), queries-IsFromOld old rest)

queries_of-IsFromOld :
    (job : TransferJob) → All (IsFromOld job.old_subscription_plan) (queries_of job)
unfolding queries_of
queries_of-IsFromOld job = elim (Bool-cases job.transfer_all) [
  | inl e ↦ rw e ((λ l h. h), tt)
  | inr e ↦ rw e (queries-IsFromOld job.old_subscription_plan (chunks job.license_uuids chunk_size))
]

-- The queries of the chunks together find what one query for all of the uuids finds.
is_selected-chunks :
    (old : ℕ) (parts : List (List ℕ)) (l : License)
    → is_selected (map (named_in old) parts) l ≡ named_in old (concat parts) l
is_selected-chunks old [] l = ground arith
is_selected-chunks old (part ∷ rest) l =
    ground
      (arith, is_selected-chunks old rest l, exists-append (λ u. u == l.uuid) part (concat rest))

is_selected-queries_of :
    (job : TransferJob) (l : License) → is_selected (queries_of job) l ≡ is_to_move job l
unfolding queries_of
is_selected-queries_of job l =
    let old = job.old_subscription_plan in
    let uuids = job.license_uuids in
    elim (Bool-cases job.transfer_all) [
      | inl e ↦ ground (arith, e)
      | inr e ↦
          let merged =
            is_selected-chunks old (chunks uuids chunk_size) l
            ∙ ap (λ us. named_in old us l) (chunks_whole uuids chunk_size (ground arith)).0 in
          ground (arith, e, merged)
    ]

-- Where no two licenses share a uuid and the two plans differ, processing a job that is not a dry run
-- and was not completed succeeds. The licenses that move to the new plan are those of the old plan, all
-- of them where the job says so, and else the assigned and activated ones whose uuids the job names;
-- nothing else in the world changes. The job is completed now, and the uuids that it reports are those
-- of the licenses that moved, each as often as a license that moved has it.
pub process_whole :
    (job : TransferJob) (w : World)
    → DistinctKeys w.licenses
    → (job.new_subscription_plan == job.old_subscription_plan) ≡ false
    → job.is_dry_run ≡ false
    → job.completed_at ≡ none
    → (uuids : List ℕ) × (process job w ≡ (
      ok (finish job uuids w.now),
      with_rows (changed (is_to_move job) (in_new_plan job.new_subscription_plan) w.licenses) w,
    ))
      × ((finish job uuids w.now).completed_at ≡ some w.now)
      × ((u : ℕ)
          → count (λ v. v == u) uuids ≡ count (λ l. is_to_move job l && l.uuid == u) w.licenses)
unfolding process finish
process_whole job w keys apart wet todo =
    let (uuids, run, told) =
      transfer_each_lem job.old_subscription_plan job.new_subscription_plan apart job wet refl
        (queries_of job) w keys (queries_of-IsFromOld job) in
    (
      uuids,
      ground (
        arith,
        todo,
        run,
        changed_alike (is_selected (queries_of job)) (is_to_move job)
            (in_new_plan job.new_subscription_plan) w.licenses (is_selected-queries_of job),
      ),
      ground (arith, wet),
      λ u.
          told u
          ∙ count_alike (is_selected (queries_of job)) (is_to_move job) u w.licenses
              (is_selected-queries_of job),
    )
