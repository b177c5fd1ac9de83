-- ===== src/Metrics/Collector.antt =====
-- `NewCollector` of internal/metrics/metrics.go, and the calls of a collector's methods. The registry
-- of Prometheus is a parameter: `register` is one promauto.New…Vec, and `none` is its panic. Bounds
-- of buckets are in milliseconds.
use bmc_secret_operator.Base.{ℕ, String, Bool, true, Option, none, some}
use bmc_secret_operator.Base.{List, [], ◌∷◌, map, Error, if◌then◌else◌}
use bmc_secret_operator.Base.Effect.{Eff, ◌>>◌, pure}
use bmc_secret_operator.Metrics
use bmc_secret_operator.Metrics.{Vec, Sample, observe, inc, set, Registry}
use bmc_secret_operator.Metrics.{reconcile_duration, reconcile_total, bmc_count, sync_success_paths}
use bmc_secret_operator.Metrics.{sync_failed_paths, sync_last_success_time, backend_op_duration}
use bmc_secret_operator.Metrics.{backend_op_total, backend_errors_total, backend_auth_duration}
use bmc_secret_operator.Metrics.{backend_auth_total, bmc_discovery_duration, credential_extraction}

pub data Kind : Type 0 where
  histogram : List ℕ → Kind
  counter gauge : Kind

-- What a vector is created with.
pub record Opts : Type 0 where
  pub name : String
  pub help : String
  pub kind : Kind
  pub labels : List String

-- The fields of `&Collector{…}`.
unfoldable pub opts : Vec → Opts
opts reconcile_duration = record {
  name = "bmcsecret_reconcile_duration_seconds";
  help = "Duration of BMCSecret reconciliation operations in seconds";
  kind = histogram (10 ∷ 50 ∷ 100 ∷ 250 ∷ 500 ∷ 1000 ∷ 2500 ∷ 5000 ∷ 10000 ∷ []);
  labels = "operation" ∷ [];
}
opts reconcile_total = record {
  name = "bmcsecret_reconcile_total";
  help = "Total number of BMCSecret reconciliation attempts";
  kind = counter;
  labels = "result" ∷ [];
}
opts bmc_count = record {
  name = "bmcsecret_bmc_count";
  help = "Number of BMCs discovered for each BMCSecret";
  kind = gauge;
  labels = "secret" ∷ [];
}
opts sync_success_paths = record {
  name = "bmcsecret_sync_success_paths";
  help = "Number of successfully synced backend paths per BMCSecret";
  kind = gauge;
  labels = "secret" ∷ [];
}
opts sync_failed_paths = record {
  name = "bmcsecret_sync_failed_paths";
  help = "Number of failed backend paths per BMCSecret";
  kind = gauge;
  labels = "secret" ∷ [];
}
opts sync_last_success_time = record {
  name = "bmcsecret_sync_last_success_timestamp";
  help = "Timestamp of last successful sync per BMCSecret (Unix time)";
  kind = gauge;
  labels = "secret" ∷ [];
}
opts backend_op_duration = record {
  name = "bmcsecret_backend_operation_duration_seconds";
  help = "Duration of backend operations in seconds";
  kind = histogram (1 ∷ 5 ∷ 10 ∷ 25 ∷ 50 ∷ 100 ∷ 250 ∷ 500 ∷ 1000 ∷ 2500 ∷ []);
  labels = "operation" ∷ "backend_type" ∷ [];
}
opts backend_op_total = record {
  name = "bmcsecret_backend_operation_total";
  help = "Total number of backend operations";
  kind = counter;
  labels = "operation" ∷ "backend_type" ∷ "result" ∷ [];
}
opts backend_errors_total = record {
  name = "bmcsecret_backend_errors_total";
  help = "Total number of backend errors by error type";
  kind = counter;
  labels = "operation" ∷ "backend_type" ∷ "error_type" ∷ [];
}
opts backend_auth_duration = record {
  name = "bmcsecret_backend_auth_duration_seconds";
  help = "Duration of backend authentication operations in seconds";
  kind = histogram (10 ∷ 50 ∷ 100 ∷ 250 ∷ 500 ∷ 1000 ∷ 2500 ∷ 5000 ∷ []);
  labels = "method" ∷ "backend_type" ∷ [];
}
opts backend_auth_total = record {
  name = "bmcsecret_backend_auth_total";
  help = "Total number of backend authentication attempts";
  kind = counter;
  labels = "method" ∷ "backend_type" ∷ "result" ∷ [];
}
opts bmc_discovery_duration = record {
  name = "bmcsecret_bmc_discovery_duration_seconds";
  help = "Duration of BMC discovery operations in seconds";
  kind = histogram (1 ∷ 5 ∷ 10 ∷ 25 ∷ 50 ∷ 100 ∷ 250 ∷ 500 ∷ 1000 ∷ []);
  labels = "secret" ∷ [];
}
opts credential_extraction = record {
  name = "bmcsecret_credential_extraction_total";
  help = "Total number of credential extraction attempts";
  kind = counter;
  labels = "secret" ∷ "result" ∷ [];
}

-- The vectors in the order in which the literal creates them.
abbrev pub all_vecs : List Vec
all_vecs =
    reconcile_duration ∷ reconcile_total ∷ bmc_count ∷ sync_success_paths ∷ sync_failed_paths
    ∷ sync_last_success_time ∷ backend_op_duration ∷ backend_op_total ∷ backend_errors_total
    ∷ backend_auth_duration ∷ backend_auth_total ∷ bmc_discovery_duration ∷ credential_extraction
    ∷ []

-- The package's variables `once` (has it run) and `instance` (the collector's vectors), and the
-- registry of the process.
pub record Process {ℓ} (R : Type ℓ) : Type ℓ where
  pub once : Bool
  pub instance_ : Option (List Opts)
  pub registry : R

module _ {ℓ} {R : Type ℓ} (register : Opts → R → Option R) where
  unfoldable pub register_all : List Opts → R → Option R
  register_all [] r = some r
  register_all (o ∷ os) r = elim (register o r) [ none ↦ none | some r' ↦ register_all os r' ]

  unfoldable pub new_collector : Process R → Option (Option (List Opts) × Process R)
  unfolding register_all opts
  new_collector p =
      if p.once then some (p.instance_, p) else elim (register_all (map opts all_vecs) p.registry) [
        | none ↦ none
        | some r ↦ some (
          some (map opts all_vecs),
          record { once = true; instance_ = some (map opts all_vecs); registry = r },
        )
      ]

-- A call of one of the collector's exported methods.
pub data Call : Type 0 where
  reconcile_took : String → ℕ → Call
  reconcile_ended : String → Call
  bmcs_counted : String → ℕ → Call
  synced : String → ℕ → ℕ → ℕ → Call
  operated : String → String → ℕ → Option Error → Call
  operated_on_engine : String → String → String → ℕ → Option Error → Call
  authenticated : String → String → ℕ → Option Error → Call
  discovered : String → ℕ → Call
  extracted : String → Option Error → Call

unfoldable pub perform : Call → Eff Registry (Unit {0})
perform (reconcile_took operation d) = Metrics.record_reconcile_duration operation d
perform (reconcile_ended result) = Metrics.record_reconcile_result result
perform (bmcs_counted secret n) = Metrics.record_bmc_count secret n
perform (synced secret done failed t) = Metrics.record_sync_status secret done failed t
perform (operated operation kind d e) = Metrics.record_backend_operation operation kind d e
perform (operated_on_engine operation kind engine d e) =
    Metrics.record_backend_operation_with_engine operation kind engine d e
perform (authenticated method kind d e) = Metrics.record_auth method kind d e
perform (discovered secret d) = Metrics.record_bmc_discovery secret d
perform (extracted secret e) = Metrics.record_credential_extraction secret e

unfoldable pub perform_all : List Call → Eff Registry (Unit {0})
unfolding perform
perform_all [] = pure tt
perform_all (c ∷ cs) = do perform c; perform_all cs
