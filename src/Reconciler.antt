-- ===== src/Reconciler.antt =====
-- internal/controller/bmcsecret_controller.go: the reconciler's struct, and the interfaces of the
-- fields that are not this repository's: the cluster's client, the event recorder and the clock.
pub mod Sync
pub mod Status
pub mod Deletion
pub mod Reconcile
pub mod Setup
pub mod Quiet
pub mod Kept
use bmc_secret_operator.Base.{ℕ, String, Bool, Option, none, some, List, Error, Result}
use bmc_secret_operator.Base.Effect.{Eff, pure}
use bmc_secret_operator.Api.Metal.{Bmc, BmcSecret}
use bmc_secret_operator.Api.SyncStatus.{BmcSecretSyncStatus}
use bmc_secret_operator.Interface.{BackendInterface, BackendFactoryInterface}

-- `update_bmc_secret` returns the object as the server stored it, which replaces the one sent.
pub record Client (S : Type 0) : Type 0 where
  pub get_bmc_secret : String → Eff S (Result BmcSecret)
  pub update_bmc_secret : BmcSecret → Eff S (Result BmcSecret)
  pub list_bmcs : Eff S (Result (List Bmc))
  pub get_sync_status : String → Eff S (Result BmcSecretSyncStatus)
  pub create_sync_status : BmcSecretSyncStatus → Eff S (Result (Unit {0}))
  pub delete_sync_status : BmcSecretSyncStatus → Eff S (Result (Unit {0}))
  pub update_sync_status : BmcSecretSyncStatus → Eff S (Result (Unit {0}))

-- The methods of `metrics.Collector` that the reconciler calls.
pub record ReconcileMetrics (S : Type 0) : Type 0 where
  pub record_reconcile_duration : String → ℕ → Eff S (Unit {0})
  pub record_reconcile_result : String → Eff S (Unit {0})
  pub record_bmc_count : String → ℕ → Eff S (Unit {0})
  pub record_sync_status : String → ℕ → ℕ → ℕ → Eff S (Unit {0})
  pub record_credential_extraction : String → Option Error → Eff S (Unit {0})

-- `event` takes the object's name, the type, the reason and the message.
pub record BmcSecretReconciler (S B : Type 0) : Type 0 where
  pub client : Client S
  pub event : String → String → String → String → Eff S (Unit {0})
  pub backend_factory : BackendFactoryInterface S B
  pub backends : BackendInterface S B
  pub metrics : Option (ReconcileMetrics S)
  pub now : Eff S ℕ

abbrev pub bmc_secret_finalizer : String
bmc_secret_finalizer = "bmcsecret.metal.ironcore.dev/backend-cleanup"

-- In seconds.
abbrev pub requeue_after_normal : ℕ
requeue_after_normal = 300

abbrev pub requeue_after_error : ℕ
requeue_after_error = 30

-- `ctrl.Result` and the error that a run returns, and what it leaves in `reconcileErr`.
pub record Exit : Type 0 where
  pub requeue_after : ℕ
  pub error : Option Error
  pub reconcile_err : Option Error

abbrev pub done : ℕ → Exit
done after = record { requeue_after = after; error = none; reconcile_err = none }

abbrev pub failed : ℕ → Error → Exit
failed after e = record { requeue_after = after; error = some e; reconcile_err = some e }

module _ {S B : Type 0} (r : BmcSecretReconciler S B) where
  -- `if r.Metrics != nil { … }`
  abbrev pub with_metrics : (ReconcileMetrics S → Eff S (Unit {0})) → Eff S (Unit {0})
  with_metrics act = elim r.metrics [ none ↦ pure tt | some m ↦ act m ]
