-- ===== src/Reconciler/Quiet.antt =====
-- The calls of the reconciler that have nothing to do with the backends' contents.
use bmc_secret_operator.Base.{◌≡◌, ℕ, String, Error, Option, some}
use bmc_secret_operator.Base.Dict.{Dict}
use bmc_secret_operator.Api.Metal.{BmcSecret}
use bmc_secret_operator.Api.SyncStatus.{BmcSecretSyncStatus}
use bmc_secret_operator.Interface.{SecretData}
use bmc_secret_operator.Interface.Store.{IsQuiet}
use bmc_secret_operator.Reconciler.{BmcSecretReconciler, ReconcileMetrics}

module _ {S L : Type 0} where
  pub record IsQuietMetrics (m : ReconcileMetrics S) (stored : S → L → Option SecretData)
      : Type 0 where
    pub duration_quiet :
        (operation : String) (d : ℕ) → IsQuiet stored (m.record_reconcile_duration operation d)
    pub result_quiet : (result : String) → IsQuiet stored (m.record_reconcile_result result)
    pub count_quiet : (name : String) (n : ℕ) → IsQuiet stored (m.record_bmc_count name n)
    pub status_quiet :
        (name : String) (good bad time : ℕ)
        → IsQuiet stored (m.record_sync_status name good bad time)
    pub extraction_quiet :
        (name : String) (e : Option Error) → IsQuiet stored (m.record_credential_extraction name e)

module _ {S B L : Type 0} where
  -- The cluster, the recorder, the clock, the metrics and the factory's getters change no place of
  -- a backend.
  pub record IsQuietAround (r : BmcSecretReconciler S B) (stored : S → L → Option SecretData)
      : Type 0 where
    pub get_secret_quiet : (name : String) → IsQuiet stored (r.client.get_bmc_secret name)
    pub update_quiet : (secret : BmcSecret) → IsQuiet stored (r.client.update_bmc_secret secret)
    pub list_quiet : IsQuiet stored r.client.list_bmcs
    pub get_status_quiet : (name : String) → IsQuiet stored (r.client.get_sync_status name)
    pub create_status_quiet :
        (status : BmcSecretSyncStatus) → IsQuiet stored (r.client.create_sync_status status)
    pub update_status_quiet :
        (status : BmcSecretSyncStatus) → IsQuiet stored (r.client.update_sync_status status)
    pub delete_status_quiet :
        (status : BmcSecretSyncStatus) → IsQuiet stored (r.client.delete_sync_status status)
    pub event_quiet :
        (name type reason text : String) → IsQuiet stored (r.event name type reason text)
    pub get_backend_quiet : IsQuiet stored r.backend_factory.get_backend
    pub get_path_builder_quiet : IsQuiet stored r.backend_factory.get_path_builder
    pub get_region_label_key_quiet : IsQuiet stored r.backend_factory.get_region_label_key
    pub get_sync_label_quiet : IsQuiet stored r.backend_factory.get_sync_label
    pub get_engine_backends_quiet :
        (labels : Option (Dict String))
        → IsQuiet stored (r.backend_factory.get_engine_backends labels)
    pub has_multi_engine_config_quiet : IsQuiet stored r.backend_factory.has_multi_engine_config
    pub now_quiet : IsQuiet stored r.now
    pub metrics_quiet : (m : ReconcileMetrics S) → r.metrics ≡ some m → IsQuietMetrics m stored
