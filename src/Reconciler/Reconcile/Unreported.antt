-- ===== src/Reconciler/Reconcile/Unreported.antt =====
-- What the metrics are told of a run, and of a deletion that fails.
use bmc_secret_operator.Base.{◌≡◌, refl, ℕ, ◌-◌, String, true, false, none, some, Error, ok, err}
use bmc_secret_operator.Api.Metal.{BmcSecret}
use bmc_secret_operator.Reconciler.{BmcSecretReconciler, ReconcileMetrics}
use bmc_secret_operator.Reconciler.Deletion.{
  contains_finalizer, remove_finalizer, release, handle_deletion,
}
use bmc_secret_operator.Reconciler.Deletion.Finalizer.{handle_deletion-releases}
use bmc_secret_operator.Reconciler.Reconcile.{lacks_sync_label, reconcile_body, reconcile}

-- At every time the cluster and the factory give this object and this label: it is labelled, is
-- being deleted and has the finalizer, and the update that drops the finalizer fails.
pub record IsStuck {S B : Type 0} (r : BmcSecretReconciler S B) (name sync_label : String)
    (secret : BmcSecret) : Type 0 where
  pub is_read : (s : S) → (r.client.get_bmc_secret name s).0 ≡ ok secret
  pub label_is_read : (s : S) → (r.backend_factory.get_sync_label s).0 ≡ ok sync_label
  pub is_labelled : lacks_sync_label sync_label secret ≡ false
  pub is_deleted : (time : ℕ) × (secret.deletion_timestamp ≡ some time)
  pub is_marked : contains_finalizer secret ≡ true
  pub update_fails :
      (s : S) → (e : Error) × ((r.client.update_bmc_secret (remove_finalizer secret) s).0 ≡ err e)

module _ {S B : Type 0} (r : BmcSecretReconciler S B) where
  handle_deletion-unreported :
      (secret : BmcSecret) (s : S)
      → contains_finalizer secret ≡ true
      → ((s' : S)
          → (e : Error) × ((r.client.update_bmc_secret (remove_finalizer secret) s').0 ≡ err e))
      → ((e : Error) × ((handle_deletion r secret s).0.error ≡ some e))
        × ((handle_deletion r secret s).0.reconcile_err ≡ none)
  unfolding release
  handle_deletion-unreported secret s h fails =
      let (s', end) = handle_deletion-releases r secret s h in
      let (e, f) = fails s' in rw end ((e, rw (f, release)), rw (f, release))

  reconcile_body-unreported :
      (name sync_label : String) (secret : BmcSecret)
      → IsStuck r name sync_label secret
      → (s : S)
      → ((e : Error) × ((reconcile_body r name s).0.error ≡ some e))
        × ((reconcile_body r name s).0.reconcile_err ≡ none)
  unfolding reconcile_body
  reconcile_body-unreported name sync_label secret stuck s =
      rw (stuck.is_read s, reconcile_body)
        (rw (stuck.label_is_read (r.client.get_bmc_secret name s).1, reconcile_body)
          (rw (stuck.is_labelled, reconcile_body)
            (simp (stuck.is_deleted.1, reconcile_body)
              (handle_deletion-unreported secret _ stuck.is_marked stuck.update_fails))))

  -- The last call of a run that has metrics.
  reconcile-recorded :
      (m : ReconcileMetrics S) (name : String) (s : S)
      → r.metrics ≡ some m
      → let exit = (reconcile_body r name (r.now s).1).0 in
        (s' : S) × (reconcile r name s ≡ (
          exit,
          (m.record_reconcile_result
              (elim exit.reconcile_err [ none ↦ "success" | some _ ↦ "error" ])
              s').1,
        ))
  unfolding reconcile
  reconcile-recorded m name s h = (
    (m.record_reconcile_duration "reconcile"
        ((r.now (reconcile_body r name (r.now s).1).1).0 - (r.now s).0)
        (r.now (reconcile_body r name (r.now s).1).1).1).1,
    simp (h, reconcile) refl,
  )

  -- Given metrics, and a labelled secret that is being deleted and has the finalizer: when the
  -- update that drops the finalizer fails, a run returns an error, and its last call tells the
  -- metrics "success".
  pub reconcile-unreported :
      (m : ReconcileMetrics S) (name sync_label : String) (secret : BmcSecret)
      → r.metrics ≡ some m
      → IsStuck r name sync_label secret
      → (s : S)
      → ((e : Error) × ((reconcile r name s).0.error ≡ some e))
        × ((s' : S) × ((reconcile r name s).1 ≡ (m.record_reconcile_result "success" s').1))
  reconcile-unreported m name sync_label secret h stuck s =
      let (s', run) = reconcile-recorded m name s h in
      let (failed, unreported) =
        reconcile_body-unreported name sync_label secret stuck (r.now s).1 in
      rw run (failed, (s', rw unreported refl))
