-- ===== src/Reconciler/Sync.antt =====
-- The loops of `reconcileSingleEngine` and `reconcileMultiEngine`, and `needsUpdate`. The two loop
-- bodies differ in the error message of a failed path and in the event of a failed write.
pub mod Round
pub mod Tally
pub mod Password
pub mod InPlace
pub mod Somewhere
pub mod Again
pub mod Writes
pub mod Count
use bmc_secret_operator.Base.{ℕ, ◌+◌, String, Bool, true, false, Option, none, some, ◌==◌, not}
use bmc_secret_operator.Base.{List, [], ◌∷◌, ◌++◌, Error, Result, ok, err, if◌then◌else◌, ◌<>◌}
use bmc_secret_operator.Base.Effect.{Eff, ◌>>=◌, ◌>>◌, attempt, pure}
use bmc_secret_operator.Base.Dict.{find}
use bmc_secret_operator.Api.Metal.{Bmc}
use bmc_secret_operator.Api.SyncStatus.{BackendPath}
use bmc_secret_operator.PathBuilder.{PathBuilder, build}
use bmc_secret_operator.Interface.{Any, str, other, EngineBackend, SecretData}
use bmc_secret_operator.Resolver.{extract_region_from_bmc, get_hostname_from_bmc}
use bmc_secret_operator.Reconciler.{BmcSecretReconciler}

-- The variables that the loop updates.
pub record Progress : Type 0 where
  pub backend_paths : List BackendPath
  pub sync_success : ℕ
  pub sync_errors : ℕ

abbrev pub no_progress : Progress
no_progress = record { backend_paths = []; sync_success = 0; sync_errors = 0 }

-- What the rounds of a loop share.
pub record Job : Type 0 where
  pub secret_name : String
  pub username : String
  pub password : String
  pub region_label_key : String
  pub sync_time : ℕ

abbrev entry : Job → Bmc → String → String → String → BackendPath
entry job bmc path status message = record {
  path = path;
  bmc_name = bmc.name;
  region = extract_region_from_bmc bmc job.region_label_key;
  hostname = get_hostname_from_bmc bmc;
  username = job.username;
  last_sync_time = job.sync_time;
  sync_status = status;
  error_message = message;
}

unfoldable pub path_failed : Job → Bmc → String → String → Progress → Progress
path_failed job bmc path message p = record p {
  backend_paths = p.backend_paths ++ entry job bmc path "Failed" message ∷ [];
  sync_errors = p.sync_errors + 1;
}

unfoldable pub path_synced : Job → Bmc → String → Progress → Progress
path_synced job bmc path p = record p {
  backend_paths = p.backend_paths ++ entry job bmc path "Success" "" ∷ [];
  sync_success = p.sync_success + 1;
}

abbrev pub secret_data : Job → SecretData
secret_data job = ("username", str job.username) ∷ ("password", str job.password) ∷ []

-- `currentData["password"].(string)`
abbrev pub password_of : Option SecretData → Option String
password_of current_data = elim (find "password" current_data) [
  | none ↦ none
  | some (str s) ↦ some s
  | some (other _) ↦ none
]

module _ {S B : Type 0} (r : BmcSecretReconciler S B) where
  unfoldable pub needs_update : B → String → String → Eff S (Result Bool)
  needs_update backend path password =
      attempt (r.backends.secret_exists backend path) (λ e. pure (err e))
        λ exists.
          if not exists
          then pure (ok true)
          else attempt (r.backends.read_secret backend path) (λ e. pure (err e))
              λ current_data. pure (
                ok (elim (password_of current_data) [
                  | none ↦ true
                  | some current_password ↦ not (current_password == password)
                ]))

  -- One round: `message` makes the status entry's error message, `report` the event of a failed write.
  unfoldable pub sync_bmc :
      (Error → String)
      → (String → Error → Eff S (Unit {0}))
      → B
      → PathBuilder
      → Job
      → Bmc
      → Progress
      → Eff S Progress
  unfolding needs_update
  sync_bmc message report backend path_builder job bmc p =
      elim (build path_builder (record {
        region = extract_region_from_bmc bmc job.region_label_key;
        hostname = get_hostname_from_bmc bmc;
        username = job.username;
      })) [
        | err e ↦ pure (path_failed job bmc "" (message e) p)
        | ok path ↦
            attempt (needs_update backend path job.password)
              (λ e. pure (path_failed job bmc path (message e) p))
              λ needs_update.
                if not needs_update
                then pure (path_synced job bmc path p)
                else attempt (r.backends.write_secret backend path (secret_data job))
                    (λ e. do report path e; pure (path_failed job bmc path (message e) p))
                    (λ _. pure (path_synced job bmc path p))
      ]

  unfoldable pub sync_bmcs :
      (Error → String)
      → (String → Error → Eff S (Unit {0}))
      → B
      → PathBuilder
      → Job
      → List Bmc
      → Progress
      → Eff S Progress
  sync_bmcs message report backend path_builder job [] p = pure p
  sync_bmcs message report backend path_builder job (bmc ∷ rest) p =
      sync_bmc message report backend path_builder job bmc p >>= λ p'.
      sync_bmcs message report backend path_builder job rest p'

  -- The loop of `reconcileSingleEngine`.
  unfoldable pub sync_single : B → PathBuilder → Job → List Bmc → Eff S Progress
  sync_single backend path_builder job bmcs =
      sync_bmcs (λ e. e.message)
        (λ path e.
          r.event job.secret_name "Warning" "SyncFailed"
            ("Failed to sync to " <> path <> ": " <> e.message))
        backend path_builder job bmcs no_progress

  -- The inner loop of `reconcileMultiEngine`.
  unfoldable pub sync_engine : Job → List Bmc → EngineBackend B → Progress → Eff S Progress
  sync_engine job bmcs engine =
      sync_bmcs (λ e. "[" <> engine.engine_name <> "] " <> e.message)
        (λ path e.
          r.event job.secret_name "Warning" "SyncFailed" (
            "Failed to sync to " <> path <> " (engine " <> engine.engine_name <> "): "
            <> e.message))
        engine.backend engine.path_builder job bmcs

  -- The outer loop.
  unfoldable pub sync_engines : Job → List Bmc → List (EngineBackend B) → Progress → Eff S Progress
  sync_engines job bmcs [] p = pure p
  sync_engines job bmcs (engine ∷ rest) p =
      sync_engine job bmcs engine p >>= λ p'. sync_engines job bmcs rest p'
