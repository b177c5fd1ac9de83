-- ===== src/Reconciler/Reconcile/Paths.antt =====
-- `reconcileSingleEngine` and `reconcileMultiEngine`, and a property of one place's content.
use bmc_secret_operator.Base.Decimal.{decimal}
use bmc_secret_operator.Base.{
  ◌-◌, none, ◌<>◌, ℕ, String, Option, some, List, [], ◌∷◌, length, ltb, ◌=ℕ◌, not,
}
use bmc_secret_operator.Base.Effect.{Eff, ◌>>=◌, ◌>>◌}
use bmc_secret_operator.Base.Effect.Keeps.{
  Keeps-pure, Keeps-if, Keeps->>, Keeps-bind, Keeps-attempt,
}
use bmc_secret_operator.Api.Metal.{Bmc, BmcSecret}
use bmc_secret_operator.Api.SyncStatus.{BackendPath}
use bmc_secret_operator.PathBuilder.{PathBuilder}
use bmc_secret_operator.Base.Dict.{Dict}
use bmc_secret_operator.Base.{◌≡◌, ok, All, All-map}
use bmc_secret_operator.Interface.{EngineBackend, SecretData, str}
use bmc_secret_operator.Interface.Store.{IsStore, IsQuiet}
use bmc_secret_operator.Reconciler.{
  BmcSecretReconciler, Exit, with_metrics, done, requeue_after_normal,
}
use bmc_secret_operator.Reconciler.Quiet.{IsQuietAround}
use bmc_secret_operator.Reconciler.Kept.{Kept, quiet_Kept, with_metrics-Kept}
use bmc_secret_operator.Reconciler.Sync.{Job, Progress, no_progress, sync_single, sync_engines}
use bmc_secret_operator.Reconciler.Sync.Writes.{Fills, sync_single-Kept, sync_engines-Kept}
use bmc_secret_operator.Reconciler.Status.{
  sync_status_name, new_sync_status, get_or_create_sync_status, next_status, update_sync_status,
}
use bmc_secret_operator.Reconciler.Reconcile.{
  report, reconcile_single_engine, reconcile_multi_engine,
}

-- The deferred metrics of a run.
abbrev pub deferred : {S B : Type 0} → BmcSecretReconciler S B → ℕ → Exit → Eff S (Unit {0})
deferred r start exit = with_metrics r (λ m. r.now >>= λ end.
    m.record_reconcile_duration "reconcile" (end - start)
    >> m.record_reconcile_result (elim exit.reconcile_err [ none ↦ "success" | some _ ↦ "error" ]))

module _ {S B L : Type 0} (r : BmcSecretReconciler S B) {stored : S → L → Option SecretData}
    (around : IsQuietAround r stored) (l : L) (P : Option SecretData → Type 0) where
  abbrev K : {A : Type 0} → Eff S A → Type 0
  K m = Kept stored l P m

  quiet : {A : Type 0} (m : Eff S A) → IsQuiet stored m → K m
  quiet m q = quiet_Kept stored l P m q

  pub get_or_create_sync_status-Kept : (name : String) → K (get_or_create_sync_status r name)
  unfolding get_or_create_sync_status
  get_or_create_sync_status-Kept name =
      Keeps-attempt (r.client.get_sync_status (sync_status_name name))
        (quiet _ (around.get_status_quiet _))
        (λ e. Keeps-if (not e.not_found) (Keeps-pure _) (
          Keeps-attempt (r.client.create_sync_status (new_sync_status name))
            (quiet _ (around.create_status_quiet _)) (λ _. Keeps-pure _)
            (λ _ _ _. quiet _ (around.get_status_quiet _))))
        (λ _ _ _. Keeps-pure _)

  pub update_sync_status-Kept :
      (name : String) (paths : List BackendPath) (total good bad : ℕ)
      → K (update_sync_status r name paths total good bad)
  unfolding update_sync_status
  update_sync_status-Kept name paths total good bad =
      Keeps-attempt (get_or_create_sync_status r name) (get_or_create_sync_status-Kept name)
        (λ e. Keeps-pure _)
        λ _ status _. Keeps-bind r.now (quiet _ around.now_quiet) λ t.
          Keeps-bind r.now (quiet _ around.now_quiet) λ t'.
            quiet (r.client.update_sync_status (next_status status paths t t' total good bad))
              (around.update_status_quiet _)

  pub report-Kept :
      (secret : BmcSecret) (p : Progress) (time : ℕ) (partial complete : String)
      → K (report r secret p time partial complete)
  unfolding report
  report-Kept secret p time partial complete =
      Keeps->>
        (Keeps-if (ltb 0 p.sync_errors)
          (quiet _ (around.event_quiet secret.name "Warning" "PartialSync" partial))
          (quiet _ (around.event_quiet secret.name "Normal" "Synced" complete)))
        (with_metrics-Kept around l P
          (λ m. m.record_sync_status secret.name p.sync_success p.sync_errors time)
          (λ m q. quiet _ (q.status_quiet _ _ _ _)))

  pub metrics-Kept : (start : ℕ) (exit : Exit) → K (deferred r start exit)
  metrics-Kept start exit = with_metrics-Kept around l P _ (λ m q.
      Keeps-bind r.now (quiet _ around.now_quiet) (λ end.
        Keeps->> (quiet _ (q.duration_quiet "reconcile" (end - start))) (
          quiet _
            (q.result_quiet (elim exit.reconcile_err [ none ↦ "success" | some _ ↦ "error" ])))))

-- If the place is that of a path that the builder builds, then the property holds of every username
-- with a password.
abbrev pub FillsWithPair :
    {B L : Type 0} → (B → String → L) → L → (Option SecretData → Type 0) → B → PathBuilder → Type 0
FillsWithPair place l P backend path_builder =
    (username password : String)
    → Fills place l backend path_builder
        (P (some (("username", str username) ∷ ("password", str password) ∷ [])))

module _ {S B L : Type 0} (r : BmcSecretReconciler S B) {place : B → String → L}
    {stored : S → L → Option SecretData} (store : IsStore r.backends place stored)
    (around : IsQuietAround r stored) (l : L) (P : Option SecretData → Type 0)
    (fills_single : (backend : B) (s : S)
      → (r.backend_factory.get_backend s).0 ≡ ok backend
      → (path_builder : PathBuilder) (s' : S)
      → (r.backend_factory.get_path_builder s').0 ≡ ok path_builder
      → FillsWithPair place l P backend path_builder)
    (fills_multi : (labels : Option (Dict String)) (s : S) (engines : List (EngineBackend B))
      → (r.backend_factory.get_engine_backends labels s).0 ≡ ok engines
      → All (λ engine. FillsWithPair place l P engine.backend engine.path_builder) engines) where
  pub reconcile_single_engine-Kept :
      (secret : BmcSecret) (bmcs : List Bmc) (username password : String)
      → Kept stored l P (reconcile_single_engine r secret bmcs username password)
  unfolding reconcile_single_engine
  reconcile_single_engine-Kept secret bmcs username password =
      Keeps-attempt r.backend_factory.get_backend (quiet_Kept stored l P _ around.get_backend_quiet)
        (λ e. Keeps->> (quiet_Kept stored l P _ (around.event_quiet _ _ _ _)) (Keeps-pure _))
        λ s backend got.
          Keeps-attempt r.backend_factory.get_path_builder
            (quiet_Kept stored l P _ around.get_path_builder_quiet) (λ e. Keeps-pure _)
            λ s' path_builder got'.
              Keeps-attempt r.backend_factory.get_region_label_key
                (quiet_Kept stored l P _ around.get_region_label_key_quiet) (λ e. Keeps-pure _)
                λ _ key _. Keeps-bind r.now (quiet_Kept stored l P _ around.now_quiet) λ time.
                  let job : Job = record {
                    secret_name = secret.name;
                    username = username;
                    password = password;
                    region_label_key = key;
                    sync_time = time;
                  } in
                  Keeps-bind (sync_single r backend path_builder job bmcs)
                    (sync_single-Kept r store around.event_quiet l P job bmcs backend path_builder
                      (fills_single backend s got path_builder s' got' username password))
                    λ p.
                      Keeps-bind
                        (update_sync_status r secret.name p.backend_paths (length bmcs)
                          p.sync_success p.sync_errors)
                        (update_sync_status-Kept r around l P _ _ _ _ _)
                        λ _.
                          Keeps->>
                            (report-Kept r around l P secret p time
                              ("Synced "
                                <> decimal p.sync_success
                                <> "/"
                                <> decimal (length bmcs)
                                <> " secrets")
                              ("Successfully synced to "
                                <> decimal p.sync_success
                                <> " backend paths"))
                            (Keeps-pure (done requeue_after_normal))

  pub reconcile_multi_engine-Kept :
      (secret : BmcSecret) (bmcs : List Bmc) (username password : String)
      → Kept stored l P (reconcile_multi_engine r secret bmcs username password)
  unfolding reconcile_multi_engine
  reconcile_multi_engine-Kept secret bmcs username password =
      Keeps-attempt r.backend_factory.get_region_label_key
        (quiet_Kept stored l P _ around.get_region_label_key_quiet) (λ e. Keeps-pure _)
        λ _ key _.
          Keeps-attempt (r.backend_factory.get_engine_backends secret.labels)
            (quiet_Kept stored l P _ (around.get_engine_backends_quiet _))
            (λ e. Keeps->> (quiet_Kept stored l P _ (around.event_quiet _ _ _ _)) (Keeps-pure _))
            λ s engines got.
              Keeps-if (length engines =ℕ 0)
                (Keeps->> (quiet_Kept stored l P _ (around.event_quiet _ _ _ _)) (Keeps-pure _))
                (Keeps-bind r.now (quiet_Kept stored l P _ around.now_quiet) λ time.
                  let job : Job = record {
                    secret_name = secret.name;
                    username = username;
                    password = password;
                    region_label_key = key;
                    sync_time = time;
                  } in
                  Keeps-bind (sync_engines r job bmcs engines no_progress)
                    (sync_engines-Kept r store around.event_quiet l P job bmcs engines no_progress (
                      All-map _ _ (λ engine fills. fills username password) engines
                        (fills_multi secret.labels s engines got)))
                    λ p.
                      Keeps-bind
                        (update_sync_status r secret.name p.backend_paths (length p.backend_paths)
                          p.sync_success p.sync_errors)
                        (update_sync_status-Kept r around l P _ _ _ _ _)
                        λ _.
                          Keeps->>
                            (report-Kept r around l P secret p time
                              ("Synced "
                                <> decimal p.sync_success
                                <> "/"
                                <> decimal (length p.backend_paths)
                                <> " secrets across "
                                <> decimal (length engines)
                                <> " engines")
                              ("Successfully synced to "
                                <> decimal p.sync_success
                                <> " backend paths across "
                                <> decimal (length engines)
                                <> " engines"))
                            (Keeps-pure (done requeue_after_normal)))
