-- ===== src/Expiration/Calls.antt =====
-- What expiring one plan asks of the enterprise API, and what it writes.
use license_manager.Base.{
  ℕ, ◌≡◌, refl, sym, ap, ◌∙◌, Bool, not, Option, List, [], ◌∷◌, ◌++◌, arith, All, exists, map,
  length, select, if◌then◌else◌, length-map,
}
use mathlib.Core.List.{append_assoc, append-nil, map-append}
use license_manager.Models.{License, Plan, is_revocable, licenses_of, license_expired}
use license_manager.Store.{World, ok, Task}
use license_manager.Store.Counts.{event_of, track_license_changes_lem}
use license_manager.Provisioning.{chunks}
use license_manager.Provisioning.Batches.{concat, FitsIn, chunks_whole}
use license_manager.Expiration.{
  license_expiration_batch_size, license_expiration_task, fails, expire_chunks,
  expire_subscription_plan, mark_processed, with_mark, is_renewed,
  ignore_enrollments_modified_after,
}

abbrev pub uuids_of : List License → List ℕ
uuids_of = map (λ (l : License). l.uuid)

-- The world after calls of the enterprise API
abbrev pub called : Option ℕ → List (List ℕ) → World → World
called ignore calls w = record w {
  tasks = w.tasks ++ map (λ c. Task.license_expiration c ignore) calls;
}

license_expiration_task_lem :
    (client : List ℕ → Bool) (uuids : List ℕ) (ignore : Option ℕ) (w : World)
    → fails (license_expiration_task client uuids ignore) w
      ≡ (ok (client uuids), called ignore (uuids ∷ []) w)
unfolding license_expiration_task fails
license_expiration_task_lem client uuids ignore w = ground arith

expire_chunks_lem :
    (client : List ℕ → Bool) (ignore : Option ℕ) (cs : List (List License)) (w : World)
    → expire_chunks client ignore cs w
      ≡ (ok (exists client (map uuids_of cs)), called ignore (map uuids_of cs) w)
unfolding expire_chunks
expire_chunks_lem client ignore [] w = rw append-nil
expire_chunks_lem client ignore (c ∷ cs) w =
    let more = map (λ (u : List ℕ). Task.license_expiration u ignore) (map uuids_of cs) in
    ground (
      arith,
      license_expiration_task_lem client (uuids_of c) ignore w,
      expire_chunks_lem client ignore cs (called ignore (uuids_of c ∷ []) w),
      append_assoc w.tasks (Task.license_expiration (uuids_of c) ignore ∷ []) more,
    )

-- The world after a plan was marked
abbrev pub marked : Plan → World → World
marked p w = record w {
  db = record w.db { plans = map (with_mark p.uuid) w.plans };
  events =
      w.events
      ++ map (event_of license_expired)
          (select (λ l. not (is_renewed l)) (licenses_of p.uuid w.licenses));
}

mark_processed_lem : (p : Plan) (w : World) → mark_processed p w ≡ (ok tt, marked p w)
unfolding mark_processed
mark_processed_lem p w = rw track_license_changes_lem

-- The licenses of a plan that its expiration is about
abbrev pub allocated_of : Plan → World → List License
allocated_of p w = select (λ l. is_revocable l.status) (licenses_of p.uuid w.licenses)

-- The uuids of the calls that expiring a plan makes
abbrev pub calls_for : Plan → World → List (List ℕ)
calls_for p w = map uuids_of (chunks (allocated_of p w) license_expiration_batch_size)

abbrev pub after_plan : (List ℕ → Bool) → Plan → World → World
after_plan client p w =
    let w' = called (ignore_enrollments_modified_after p w.now) (calls_for p w) w in
    if exists client (calls_for p w) then w' else marked p w'

pub expire_subscription_plan_lem :
    (client : List ℕ → Bool) (p : Plan) (w : World)
    → expire_subscription_plan client p w ≡ (ok tt, after_plan client p w)
unfolding expire_subscription_plan
expire_subscription_plan_lem client p w =
    let w' = called (ignore_enrollments_modified_after p w.now) (calls_for p w) w in
    ground (
      arith,
      expire_chunks_lem client (ignore_enrollments_modified_after p w.now)
          (chunks (allocated_of p w) license_expiration_batch_size) w,
      mark_processed_lem p w',
    )

concat-uuids_of : (cs : List (List License)) → concat (map uuids_of cs) ≡ uuids_of (concat cs)
concat-uuids_of [] = refl
concat-uuids_of (c ∷ cs) =
    ap (◌++◌ (uuids_of c)) (concat-uuids_of cs)
    ∙ sym (map-append (λ (l : License). l.uuid) c (concat cs))

FitsIn-uuids_of :
    (size : ℕ) (cs : List (List License))
    → All (λ c. FitsIn size (length c)) cs
    → All (λ c. FitsIn size (length c)) (map uuids_of cs)
FitsIn-uuids_of size [] h = tt
FitsIn-uuids_of size (c ∷ cs) h = (rw (length-map) h.0, FitsIn-uuids_of size cs h.1)

-- Expiring a plan never raises. It asks for the end of the enrollments in calls of at least one and at
-- most a hundred licenses, which are the plan's assigned and activated ones in order, each in one call.
-- If a call fails nothing else happens; else the plan alone is marked as processed, and an event is
-- sent for each license of the plan that was not renewed.
pub expire_subscription_plan_whole :
    (client : List ℕ → Bool) (p : Plan) (w : World)
    → (concat (calls_for p w) ≡ uuids_of (allocated_of p w))
      × All (λ c. FitsIn 100 (length c)) (calls_for p w)
      × (expire_subscription_plan client p w ≡ (ok tt, after_plan client p w))
expire_subscription_plan_whole client p w =
    let cs = chunks (allocated_of p w) license_expiration_batch_size in
    let (whole, fit) =
      chunks_whole (allocated_of p w) license_expiration_batch_size (omega arith) in
    (
      concat-uuids_of cs ∙ ap uuids_of whole,
      FitsIn-uuids_of 100 cs fit,
      expire_subscription_plan_lem client p w,
    )
