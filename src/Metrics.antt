-- ===== src/Metrics.antt =====
-- internal/metrics/metrics.go. Prometheus is the list of the calls made on its vectors, oldest
-- first; a counter's value is the number of its increments. A duration is what the caller measured.
pub mod Classify
pub mod Collector
pub mod Fits
pub mod Once
pub mod Accounts
use bmc_secret_operator.Base.{ℕ, String, ◌<>◌, Bool, true, false, ◌&&◌, Option, none, some, ◌==◌}
use bmc_secret_operator.Base.{List, [], ◌∷◌, ◌++◌, Error, ltb, ◌=ℕ◌, if◌then◌else◌}
use bmc_secret_operator.Base.Effect.{Eff, ◌>>=◌, ◌>>◌, pure}
use bmc_secret_operator.Interface.{MetricsCollector}
use bmc_secret_operator.Reconciler.{ReconcileMetrics}
use Classify.{classify_error}

pub data Vec : Type 0 where
  reconcile_duration reconcile_total bmc_count sync_success_paths sync_failed_paths : Vec
  sync_last_success_time backend_op_duration backend_op_total backend_errors_total : Vec
  backend_auth_duration backend_auth_total bmc_discovery_duration credential_extraction : Vec

pub data Sample : Type 0 where
  observe : Vec → List String → ℕ → Sample
  inc : Vec → List String → Sample
  set : Vec → List String → ℕ → Sample

abbrev pub Registry : Type 0
Registry = List Sample

abbrev pub emit : Sample → Eff Registry (Unit {0})
emit s samples = (tt, samples ++ s ∷ [])

-- `resultSuccess` or `resultError`
abbrev pub result_of : Option Error → String
result_of none = "success"
result_of (some e) = "error"

unfoldable pub record_reconcile_duration : String → ℕ → Eff Registry (Unit {0})
record_reconcile_duration operation duration =
    emit (observe reconcile_duration (operation ∷ []) duration)

unfoldable pub record_reconcile_result : String → Eff Registry (Unit {0})
record_reconcile_result result = emit (inc reconcile_total (result ∷ []))

unfoldable pub record_bmc_count : String → ℕ → Eff Registry (Unit {0})
record_bmc_count secret count = emit (set bmc_count (secret ∷ []) count)

unfoldable pub record_sync_status : String → ℕ → ℕ → ℕ → Eff Registry (Unit {0})
record_sync_status secret success_paths failed_paths sync_time = do
  emit (set sync_success_paths (secret ∷ []) success_paths)
  emit (set sync_failed_paths (secret ∷ []) failed_paths)
  if ltb 0 success_paths && (failed_paths =ℕ 0)
      then emit (set sync_last_success_time (secret ∷ []) sync_time)
      else pure tt

unfoldable pub record_backend_error : String → String → Error → Eff Registry (Unit {0})
record_backend_error operation backend_type e =
    emit (inc backend_errors_total (operation ∷ backend_type ∷ classify_error (some e) ∷ []))

unfoldable pub record_backend_operation :
    String → String → ℕ → Option Error → Eff Registry (Unit {0})
unfolding record_backend_error
record_backend_operation operation backend_type duration e = do
  emit (observe backend_op_duration (operation ∷ backend_type ∷ []) duration)
  elim e [ none ↦ pure tt | some e' ↦ record_backend_error operation backend_type e' ]
  emit (inc backend_op_total (operation ∷ backend_type ∷ result_of e ∷ []))

unfoldable pub record_backend_operation_with_engine :
    String → String → String → ℕ → Option Error → Eff Registry (Unit {0})
unfolding record_backend_operation
record_backend_operation_with_engine operation backend_type engine duration e =
    record_backend_operation operation
      (if engine == "" then backend_type else backend_type <> ":" <> engine) duration e

unfoldable pub record_auth : String → String → ℕ → Option Error → Eff Registry (Unit {0})
record_auth method backend_type duration e = do
  emit (observe backend_auth_duration (method ∷ backend_type ∷ []) duration)
  emit (inc backend_auth_total (method ∷ backend_type ∷ result_of e ∷ []))

unfoldable pub record_bmc_discovery : String → ℕ → Eff Registry (Unit {0})
record_bmc_discovery secret duration = emit (observe bmc_discovery_duration (secret ∷ []) duration)

unfoldable pub record_credential_extraction : String → Option Error → Eff Registry (Unit {0})
record_credential_extraction secret e = emit (inc credential_extraction (secret ∷ result_of e ∷ []))

-- The collector as the backends and as the reconciler hold it.
abbrev pub for_backends : MetricsCollector Registry
for_backends = record {
  record_auth = record_auth;
  record_backend_operation = some record_backend_operation;
  record_backend_operation_with_engine = some record_backend_operation_with_engine;
}

abbrev pub for_reconciler : ReconcileMetrics Registry
for_reconciler = record {
  record_reconcile_duration = record_reconcile_duration;
  record_reconcile_result = record_reconcile_result;
  record_bmc_count = record_bmc_count;
  record_sync_status = record_sync_status;
  record_credential_extraction = record_credential_extraction;
}
