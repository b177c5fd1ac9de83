-- ===== src/Api/SyncStatus.antt =====
-- The BMCSecretSyncStatus resource: api/v1alpha1/bmcsecretsyncstatus_types.go. Times are the
-- readings of a clock. `Condition` has the fields of metav1.Condition.
use bmc_secret_operator.Base.{ℕ, String, List}

pub record BackendPath : Type 0 where
  pub path : String
  pub bmc_name : String
  pub region : String
  pub hostname : String
  pub username : String
  pub last_sync_time : ℕ
  pub sync_status : String
  pub error_message : String

pub record Condition : Type 0 where
  pub type : String
  pub status : String
  pub observed_generation : ℕ
  pub last_transition_time : ℕ
  pub reason : String
  pub message : String

pub record BmcSecretSyncStatusSpec : Type 0 where
  pub bmc_secret_ref : String

pub record BmcSecretSyncStatusStatus : Type 0 where
  pub backend_paths : List BackendPath
  pub last_sync_attempt : ℕ
  pub total_paths : ℕ
  pub successful_paths : ℕ
  pub failed_paths : ℕ
  pub conditions : List Condition

pub record BmcSecretSyncStatus : Type 0 where
  pub name : String
  pub generation : ℕ
  pub spec : BmcSecretSyncStatusSpec
  pub status : BmcSecretSyncStatusStatus
