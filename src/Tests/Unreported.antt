-- ===== src/Tests/Unreported.antt =====
-- A run of `World` for a deleted secret whose finalizer the cluster does not let go, with metrics that
-- keep each result as a name of the second backend.
use bmc_secret_operator.Base.{Bool, false, ◌≡◌, refl, Error, some, [], ◌∷◌}
use bmc_secret_operator.Base.Dict.{lookup}
use bmc_secret_operator.Base.Effect.{pure}
use bmc_secret_operator.Api.Metal.{BmcSecret}
use bmc_secret_operator.Reconciler.{BmcSecretReconciler, ReconcileMetrics}
use bmc_secret_operator.Reconciler.Deletion.{contains_finalizer}
use bmc_secret_operator.Reconciler.Reconcile.{reconcile, lacks_sync_label}
use bmc_secret_operator.Reconciler.Reconcile.Unreported.{IsStuck, reconcile-unreported}
use bmc_secret_operator.Tests.World.{World, secret, reconciler, update_refused}

abbrev results : ReconcileMetrics World
results = record {
  record_reconcile_duration = λ operation duration. pure tt;
  record_reconcile_result = λ result w. (tt, (w.0, (result, []) ∷ w.1));
  record_bmc_count = λ name count. pure tt;
  record_sync_status = λ name good bad time. pure tt;
  record_credential_extraction = λ name e. pure tt;
}

abbrev deleted : BmcSecret
deleted = record secret { deletion_timestamp = some 1 }

abbrev measured : BmcSecretReconciler World Bool
measured = record (reconciler deleted false) { metrics = some results }

measured-IsStuck : IsStuck measured "bmc-1" "sync" deleted
unfolding lacks_sync_label contains_finalizer lookup
measured-IsStuck = record {
  is_read = λ w. refl;
  label_is_read = λ w. refl;
  is_labelled = refl;
  is_deleted = (1, refl);
  is_marked = refl;
  update_fails = λ w. (update_refused, refl);
}

reconcile-unreported_example :
    let after = reconcile measured "bmc-1" ([], []) in
    ((e : Error) × (after.0.error ≡ some e))
    × ((w : World) × (after.1 ≡ (results.record_reconcile_result "success" w).1))
reconcile-unreported_example =
    reconcile-unreported measured results "bmc-1" "sync" deleted refl measured-IsStuck ([], [])
