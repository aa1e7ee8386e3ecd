-- ===== src/Transfer.antt =====
-- Moving licenses between two plans: `LicenseTransferJob.process` (subscriptions/models.py). The raw
-- text of uuids is given as the list that `get_license_uuids` makes of it, and the job's own row, which
-- `process` saves last, is what the action returns.
pub mod Moved
mod Tests
use license_manager.Base.{
  ℕ, Bool, true, false, not, ◌&&◌, Option, none, some, List, [], ◌∷◌, ◌++◌, exists, select, map,
  is_some, ◌==◌, if◌then◌else◌,
}
use license_manager.Models.{License, in_plan, is_revocable}
use license_manager.Store.{
  Action, World, Result, ok, err, pure, gets, when, atomic, bulk_update, ◌>>=◌, ◌>>◌,
}
use license_manager.Provisioning.{chunks}

pub record TransferResult : Type 0 where
  pub is_dry_run : Bool
  pub modified_licenses : List ℕ
  pub completed_at : ℕ

pub record TransferJob : Type 0 where
  pub old_subscription_plan : ℕ
  pub new_subscription_plan : ℕ
  pub transfer_all : Bool
  pub license_uuids : List ℕ
  pub is_dry_run : Bool
  pub completed_at : Option ℕ
  pub processed_results : List TransferResult

-- CHUNK_SIZE
abbrev pub chunk_size : ℕ
chunk_size = 100

-- `get_licenses_to_transfer`: the filter of each query
unfoldable pub queries_of : TransferJob → List (License → Bool)
queries_of job =
    if job.transfer_all
    then (in_plan job.old_subscription_plan ∷ [])
    else map
        (λ chunk l.
          in_plan job.old_subscription_plan l
          && is_revocable l.status
          && exists (λ u. u == l.uuid) chunk)
        (chunks job.license_uuids chunk_size)

abbrev pub moved_to : ℕ → List License → List License
moved_to plan = map (λ (l : License). record l { subscription_plan = plan })

-- The loop of `process`, which runs each query when it comes to it: the uuids that were processed
unfoldable pub transfer_each : TransferJob → List (License → Bool) → Action (List ℕ)
transfer_each job [] = pure []
transfer_each job (p ∷ rest) = do
  licenses ← gets (λ w. select p w.licenses)
  when (not job.is_dry_run) (bulk_update (moved_to job.new_subscription_plan licenses))
  uuids ← transfer_each job rest
  pure (map (λ l. l.uuid) licenses ++ uuids)

unfoldable pub finish : TransferJob → List ℕ → ℕ → TransferJob
finish job uuids now = record job {
  completed_at = if job.is_dry_run then job.completed_at else some now;
  processed_results =
      job.processed_results
      ++ record { is_dry_run = job.is_dry_run; modified_licenses = uuids; completed_at = now } ∷ [];
}

-- `process`
unfoldable pub process : TransferJob → Action TransferJob
process job = if is_some job.completed_at then pure job else do
  uuids ← atomic (transfer_each job (queries_of job))
  now ← gets (λ w. w.now)
  pure (finish job uuids now)
