-- ===== src/Reconciler/Reconcile/Truth.antt =====
-- What `reconcileSingleEngine` and `reconcileMultiEngine` write into the BMCSecretSyncStatus.
use bmc_secret_operator.Base.{◌≡◌, ◌↔◌, ◌+◌, refl, String, Option, some, List, [], ◌∷◌}
use bmc_secret_operator.Base.{All, length, count, Error, Result, ok, err}
use bmc_secret_operator.Base.Effect.{Eff, attempt, handle}
use bmc_secret_operator.Api.Metal.{Bmc}
use bmc_secret_operator.Api.SyncStatus.{Condition, BmcSecretSyncStatus}
use bmc_secret_operator.Interface.{SecretData}
use bmc_secret_operator.Reconciler.{BmcSecretReconciler}
use bmc_secret_operator.Reconciler.Sync.{
  Progress, no_progress, Job, needs_update, sync_bmc, sync_bmcs, sync_single, sync_engine,
  sync_engines,
}
use bmc_secret_operator.Reconciler.Sync.Tally.{is_synced, is_failed}
use bmc_secret_operator.Reconciler.Sync.Somewhere.{IsSomewhere}
use bmc_secret_operator.Reconciler.Status.Conditions.{find_condition}
use bmc_secret_operator.PathBuilder.{PathBuilder}
use bmc_secret_operator.Interface.{EngineBackend}

-- A status object that agrees with itself and with the backends: its counts are those of its
-- entries, its Synced condition is True exactly if no entry failed, and where an entry says Success a
-- backend has the password at its path.
pub record IsTruthful {S B L : Type 0} (place : B → String → L) (stored : S → L → Option SecretData)
    (password : String) (s : S) (object : BmcSecretSyncStatus) : Type 0 where
  pub total : length object.status.backend_paths ≡ object.status.total_paths
  pub successful : count is_synced object.status.backend_paths ≡ object.status.successful_paths
  pub failed : count is_failed object.status.backend_paths ≡ object.status.failed_paths
  pub whole :
      object.status.successful_paths + object.status.failed_paths ≡ object.status.total_paths
  pub condition :
      (c : Condition) × (find_condition "Synced" object.status.conditions ≡ some c)
      × ((c.status ≡ "True") ↔ (object.status.failed_paths ≡ 0))
  pub entries :
      All (IsSomewhere (λ b. Unit {0}) place stored password s) object.status.backend_paths

-- The reconciler with another status update.
abbrev pub with_update :
    {S B : Type 0}
    → BmcSecretReconciler S B
    → (BmcSecretSyncStatus → Eff S (Result (Unit {0})))
    → BmcSecretReconciler S B
with_update r update = record r { client = record r.client { update_sync_status = update } }

module _ {S A C : Type 0} where
  handle_agrees :
      (a : Result C) (fail : Error → Eff S A) (rest rest' : C → Eff S A) (s : S)
      → ((c : C) → rest' c s ≡ rest c s)
      → handle a fail rest' s ≡ handle a fail rest s
  handle_agrees (ok c) fail rest rest' s h = h c
  handle_agrees (err e) fail rest rest' s h = refl

  pub attempt_agrees :
      (m : Eff S (Result C)) (fail : Error → Eff S A) (rest rest' : C → Eff S A) (s : S)
      → ((c : C) → rest' c (m s).1 ≡ rest c (m s).1)
      → attempt m fail rest' s ≡ attempt m fail rest s
  attempt_agrees m fail rest rest' s h = handle_agrees (m s).0 fail rest rest' (m s).1 h

module _ {S B : Type 0} (r : BmcSecretReconciler S B)
    (update : BmcSecretSyncStatus → Eff S (Result (Unit {0}))) where
  sync_bmcs-with_update :
      (message : Error → String) (report : String → Error → Eff S (Unit {0})) (backend : B)
      (path_builder : PathBuilder) (job : Job) (bmcs : List Bmc) (p : Progress) (s : S)
      → sync_bmcs (with_update r update) message report backend path_builder job bmcs p s
        ≡ sync_bmcs r message report backend path_builder job bmcs p s
  unfolding sync_bmcs sync_bmc needs_update
  sync_bmcs-with_update message report backend path_builder job [] p s = refl
  sync_bmcs-with_update message report backend path_builder job (bmc ∷ rest) p s =
      let (p', s') = sync_bmc r message report backend path_builder job bmc p s in
      sync_bmcs-with_update message report backend path_builder job rest p' s'

  pub sync_single-with_update :
      (backend : B) (path_builder : PathBuilder) (job : Job) (bmcs : List Bmc) (s : S)
      → sync_single (with_update r update) backend path_builder job bmcs s
        ≡ sync_single r backend path_builder job bmcs s
  unfolding sync_single
  sync_single-with_update backend path_builder job bmcs s =
      sync_bmcs-with_update _ _ backend path_builder job bmcs no_progress s

  pub sync_engines-with_update :
      (job : Job) (bmcs : List Bmc) (engines : List (EngineBackend B)) (p : Progress) (s : S)
      → sync_engines (with_update r update) job bmcs engines p s
        ≡ sync_engines r job bmcs engines p s
  unfolding sync_engines sync_engine
  sync_engines-with_update job bmcs [] p s = refl
  sync_engines-with_update job bmcs (engine ∷ rest) p s =
      rw (sync_bmcs-with_update _ _ engine.backend engine.path_builder job bmcs p s)
        (sync_engines-with_update job bmcs rest _ _)
