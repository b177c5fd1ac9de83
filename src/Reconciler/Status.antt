-- ===== src/Reconciler/Status.antt =====
-- `updateSyncStatus` and `setCondition`.
pub mod Conditions
use bmc_secret_operator.Base.{ℕ, zero, suc, String, ◌<>◌, Bool, true, false, ◌||◌, not, ◌==◌}
use bmc_secret_operator.Base.{List, [], ◌∷◌, Result, ok, err, ◌=ℕ◌, ltb, if◌then◌else◌}
use bmc_secret_operator.Base.Effect.{Eff, ◌>>=◌, ◌>>◌, attempt, pure}
use bmc_secret_operator.Base.Decimal.{decimal}
use bmc_secret_operator.Api.SyncStatus.{
  BackendPath, Condition, BmcSecretSyncStatus, BmcSecretSyncStatusStatus,
}
use bmc_secret_operator.Reconciler.{BmcSecretReconciler}

-- The first condition of the new one's type is replaced if its status or reason differ, and kept
-- as it is if not; without one the new condition is appended.
unfoldable pub set_condition : List Condition → Condition → List Condition
set_condition [] new_condition = new_condition ∷ []
set_condition (c ∷ rest) new_condition =
    if c.type == new_condition.type
    then if not (c.status == new_condition.status) || not (c.reason == new_condition.reason)
      then new_condition ∷ rest
      else c ∷ rest
    else c ∷ set_condition rest new_condition

-- The condition for the three ways that a run can end, without its time and generation.
unfoldable pub synced_condition : ℕ → ℕ → ℕ → ℕ → ℕ → Condition
synced_condition generation now total_paths successful_paths failed_paths =
    if failed_paths =ℕ 0
    then record {
      type = "Synced";
      status = "True";
      observed_generation = generation;
      last_transition_time = now;
      reason = "AllPathsSynced";
      message = "Successfully synced to " <> decimal successful_paths <> " backend paths";
    }
    else if ltb 0 successful_paths
    then record {
      type = "Synced";
      status = "False";
      observed_generation = generation;
      last_transition_time = now;
      reason = "PartialSync";
      message =
          "Synced "
          <> decimal successful_paths
          <> "/"
          <> decimal total_paths
          <> " paths, "
          <> decimal failed_paths
          <> " failed";
    }
    else record {
      type = "Synced";
      status = "False";
      observed_generation = generation;
      last_transition_time = now;
      reason = "SyncFailed";
      message = "Failed to sync to " <> decimal failed_paths <> " paths";
    }

abbrev pub sync_status_name : String → String
sync_status_name bmc_secret_name = bmc_secret_name <> "-sync-status"

-- The resource as it is created: a spec, and the status zero.
abbrev pub new_sync_status : String → BmcSecretSyncStatus
new_sync_status bmc_secret_name = record {
  name = sync_status_name bmc_secret_name;
  generation = 0;
  spec = record { bmc_secret_ref = bmc_secret_name };
  status = record {
    backend_paths = [];
    last_sync_attempt = 0;
    total_paths = 0;
    successful_paths = 0;
    failed_paths = 0;
    conditions = [];
  };
}

-- The status that is written over the one that was read.
unfoldable pub next_status :
    BmcSecretSyncStatus → List BackendPath → ℕ → ℕ → ℕ → ℕ → ℕ → BmcSecretSyncStatus
next_status old backend_paths attempt_time condition_time total_paths successful_paths
      failed_paths =
    record old {
      status = record {
        backend_paths = backend_paths;
        last_sync_attempt = attempt_time;
        total_paths = total_paths;
        successful_paths = successful_paths;
        failed_paths = failed_paths;
        conditions = set_condition old.status.conditions (
            synced_condition old.generation condition_time total_paths successful_paths
              failed_paths);
      };
    }

module _ {S B : Type 0} (r : BmcSecretReconciler S B) where
  -- The status as read, created first if it is not there.
  unfoldable pub get_or_create_sync_status : String → Eff S (Result BmcSecretSyncStatus)
  get_or_create_sync_status bmc_secret_name =
      attempt (r.client.get_sync_status (sync_status_name bmc_secret_name))
        (λ e.
          if not e.not_found
          then pure (err e)
          else attempt (r.client.create_sync_status (new_sync_status bmc_secret_name))
              (λ e'. pure (err e'))
              (λ _. r.client.get_sync_status (sync_status_name bmc_secret_name)))
        (λ sync_status. pure (ok sync_status))

  unfoldable pub update_sync_status :
      String → List BackendPath → ℕ → ℕ → ℕ → Eff S (Result (Unit {0}))
  update_sync_status bmc_secret_name backend_paths total_paths successful_paths failed_paths =
      attempt (get_or_create_sync_status bmc_secret_name) (λ e. pure (err e))
        λ sync_status. do
          attempt_time ← r.now
          condition_time ← r.now
          r.client.update_sync_status (
              next_status sync_status backend_paths attempt_time condition_time total_paths
                successful_paths failed_paths)
