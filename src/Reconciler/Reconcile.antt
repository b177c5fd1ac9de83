-- ===== src/Reconciler/Reconcile.antt =====
-- `Reconcile`, `reconcileSingleEngine` and `reconcileMultiEngine`.
pub mod Exits
pub mod Gates
pub mod Writes
pub mod Paths
pub mod Truth
pub mod Reported
pub mod Converges
pub mod Departs
pub mod Unreported
use bmc_secret_operator.Base.{
  ℕ, ◌-◌, String, ◌<>◌, Bool, true, false, not, Option, none, some, ◌==◌,
}
use bmc_secret_operator.Base.{
  List, [], ◌∷◌, length, ltb, ◌=ℕ◌, error_of, Result, ok, err, if◌then◌else◌,
}
use bmc_secret_operator.Base.Effect.{Eff, ◌>>=◌, ◌>>◌, attempt, pure}
use bmc_secret_operator.Base.Decimal.{decimal}
use bmc_secret_operator.Base.Dict.{find}
use bmc_secret_operator.Api.Metal.{Bmc, BmcSecret}
use bmc_secret_operator.Resolver.{extract_credentials, find_bmcs_for_secret, or_empty}
use bmc_secret_operator.Reconciler.{
  BmcSecretReconciler, Exit, done, failed, with_metrics, requeue_after_normal, requeue_after_error,
}
use bmc_secret_operator.Reconciler.Sync.{Progress, no_progress, Job, sync_single, sync_engines}
use bmc_secret_operator.Reconciler.Status.{update_sync_status}
use bmc_secret_operator.Reconciler.Deletion.{contains_finalizer, add_finalizer, handle_deletion}

-- `syncLabel != "" && (bmcSecret.Labels == nil || bmcSecret.Labels[syncLabel] == "")`
unfoldable pub lacks_sync_label : String → BmcSecret → Bool
lacks_sync_label sync_label secret =
    if sync_label == "" then false else or_empty (find sync_label secret.labels) == ""

module _ {S B : Type 0} (r : BmcSecretReconciler S B) where
  abbrev event_of : BmcSecret → String → String → String → Eff S (Unit {0})
  event_of secret = r.event secret.name

  -- The event and the metrics of a finished loop, with the texts of the event.
  unfoldable pub report : BmcSecret → Progress → ℕ → String → String → Eff S (Unit {0})
  report secret p sync_time partial complete =
      (if ltb 0 p.sync_errors
        then event_of secret "Warning" "PartialSync" partial
        else event_of secret "Normal" "Synced" complete)
      >> with_metrics r
          (λ m. m.record_sync_status secret.name p.sync_success p.sync_errors sync_time)

  unfoldable pub reconcile_single_engine : BmcSecret → List Bmc → String → String → Eff S Exit
  reconcile_single_engine secret bmcs username password =
      attempt r.backend_factory.get_backend
        (λ e.
          event_of secret "Warning" "BackendUnavailable" e.message
          >> pure (failed requeue_after_error e))
        λ backend.
          attempt r.backend_factory.get_path_builder (λ e. pure (failed requeue_after_error e))
            λ path_builder.
              attempt r.backend_factory.get_region_label_key
                (λ e. pure (failed requeue_after_error e))
                λ region_label_key. do
                  sync_time ← r.now
                  p ←
                      sync_single r backend path_builder
                        (record {
                          secret_name = secret.name;
                          username = username;
                          password = password;
                          region_label_key = region_label_key;
                          sync_time = sync_time;
                        })
                        bmcs
                  _ ←
                      update_sync_status r secret.name p.backend_paths (length bmcs) p.sync_success
                        p.sync_errors
                  report secret p sync_time
                      ("Synced "
                        <> decimal p.sync_success
                        <> "/"
                        <> decimal (length bmcs)
                        <> " secrets")
                      ("Successfully synced to " <> decimal p.sync_success <> " backend paths")
                  pure (done requeue_after_normal)

  unfoldable pub reconcile_multi_engine : BmcSecret → List Bmc → String → String → Eff S Exit
  reconcile_multi_engine secret bmcs username password =
      attempt r.backend_factory.get_region_label_key (λ e. pure (failed requeue_after_error e))
        λ region_label_key.
          attempt (r.backend_factory.get_engine_backends secret.labels)
            (λ e.
              event_of secret "Warning" "BackendUnavailable" e.message
              >> pure (failed requeue_after_error e))
            λ engines.
              if length engines =ℕ 0
              then (event_of secret "Normal" "NoMatchingEngines"
                    "No secret engines match this BMCSecret's labels"
                  >> pure (done requeue_after_normal))
              else do
                sync_time ← r.now
                p ←
                    sync_engines r
                      (record {
                        secret_name = secret.name;
                        username = username;
                        password = password;
                        region_label_key = region_label_key;
                        sync_time = sync_time;
                      })
                      bmcs engines no_progress
                _ ←
                    update_sync_status r secret.name p.backend_paths (length p.backend_paths)
                      p.sync_success p.sync_errors
                report secret p sync_time
                    ("Synced "
                      <> decimal p.sync_success
                      <> "/"
                      <> decimal (length p.backend_paths)
                      <> " secrets across "
                      <> decimal (length engines)
                      <> " engines")
                    ("Successfully synced to "
                      <> decimal p.sync_success
                      <> " backend paths across "
                      <> decimal (length engines)
                      <> " engines")
                pure (done requeue_after_normal)

  -- From the extraction of the credentials to the end.
  unfoldable pub sync_credentials : BmcSecret → List Bmc → Eff S Exit
  sync_credentials secret bmcs =
      let credentials = extract_credentials secret in
      with_metrics r (λ m. m.record_credential_extraction secret.name (error_of credentials))
      >> attempt (pure credentials)
          (λ e.
            event_of secret "Warning" "MissingCredentials" e.message
            >> pure (failed requeue_after_error e))
          λ (username, password).
            attempt r.backend_factory.has_multi_engine_config
              (λ e. pure (failed requeue_after_error e))
              λ has_multi_engine.
                if has_multi_engine
                then reconcile_multi_engine secret bmcs username password
                else reconcile_single_engine secret bmcs username password

  -- From the discovery of the BMCs to the end.
  unfoldable pub discover_and_sync : BmcSecret → Eff S Exit
  discover_and_sync secret =
      attempt (find_bmcs_for_secret r.client.list_bmcs secret.name)
        (λ e.
          event_of secret "Warning" "BMCDiscoveryFailed" e.message
          >> pure (failed requeue_after_error e))
        λ bmcs.
          with_metrics r (λ m. m.record_bmc_count secret.name (length bmcs))
          >> (if length bmcs =ℕ 0
              then (event_of secret "Normal" "NoBMCReference" "No BMCs reference this secret"
                  >> pure (done requeue_after_normal))
              else sync_credentials secret bmcs)

  -- `if !ContainsFinalizer { AddFinalizer; Update }`, and the rest with the object that came back.
  unfoldable pub ensure_finalizer : BmcSecret → Eff S (Result BmcSecret)
  ensure_finalizer secret =
      if contains_finalizer secret
      then pure (ok secret)
      else r.client.update_bmc_secret (add_finalizer secret)

  unfoldable pub reconcile_body : String → Eff S Exit
  reconcile_body name =
      attempt (r.client.get_bmc_secret name)
        (λ e. if e.not_found then pure (done 0) else pure (failed 0 e))
        λ secret.
          attempt r.backend_factory.get_sync_label (λ e. pure (failed requeue_after_error e))
            λ sync_label.
              if lacks_sync_label sync_label secret
              then pure (done 0)
              else elim secret.deletion_timestamp [
                | some _ ↦ handle_deletion r secret
                | none ↦
                    attempt (ensure_finalizer secret) (λ e. pure (failed 0 e)) discover_and_sync
              ]

  -- `Reconcile` with its deferred metrics.
  unfoldable pub reconcile : String → Eff S Exit
  reconcile name = do
    start ← r.now
    exit ← reconcile_body name
    elim r.metrics [
      | none ↦ pure tt
      | some m ↦ do
        end ← r.now
        m.record_reconcile_duration "reconcile" (end - start)
        m.record_reconcile_result (elim exit.reconcile_err [ none ↦ "success" | some _ ↦ "error" ])
    ]
    pure exit
