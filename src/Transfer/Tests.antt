-- ===== src/Transfer/Tests.antt =====
-- The transfer theorem at a concrete input.
use license_manager.Base.{ℕ, ◌≡◌, refl, false, ◌&&◌, none, some, List, [], ◌∷◌, arith, count, ◌==◌}
use license_manager.Store.{ok}
use license_manager.Store.Changed.{changed}
use license_manager.Renewal.Copies.{with_rows}
use license_manager.Samples.{world}
use license_manager.Transfer.{TransferJob, process, finish}
use license_manager.Transfer.Moved.{is_to_move, in_new_plan, process_whole}

-- The active license of the open plan moves to the capped plan; 12 is not assigned and stays.
abbrev job : TransferJob
job = record {
  old_subscription_plan = 1;
  new_subscription_plan = 2;
  transfer_all = false;
  license_uuids = 10 ∷ 12 ∷ [];
  is_dry_run = false;
  completed_at = none;
  processed_results = [];
}

process_whole_example :
    (uuids : List ℕ) × (process job world ≡ (
      ok (finish job uuids 2000),
      with_rows (changed (is_to_move job) (in_new_plan 2) world.licenses) world,
    ))
    × ((finish job uuids 2000).completed_at ≡ some 2000)
    × ((u : ℕ)
        → count (λ v. v == u) uuids ≡ count (λ l. is_to_move job l && l.uuid == u) world.licenses)
process_whole_example = process_whole job world (ground arith) refl refl refl
