-- ===== src/Reconciler/Deletion/Kept.antt =====
-- What a deletion keeps of one place, given what the deletions of its paths keep.
use bmc_secret_operator.Base.{ℕ, ◌-◌, ◌≡◌, String, Option, List}
use bmc_secret_operator.Base.{ok, if◌then◌else◌}
use bmc_secret_operator.Base.Effect.{pure}
use bmc_secret_operator.Base.Effect.Keeps.{
  Keeps-pure, Keeps-if, Keeps->>, Keeps-bind, Keeps-attempt,
}
use bmc_secret_operator.Api.Metal.{Bmc, BmcSecret}
use bmc_secret_operator.PathBuilder.{PathBuilder}
use bmc_secret_operator.Interface.{SecretData}
use bmc_secret_operator.Reconciler.Kept.{Kept, quiet_Kept, with_metrics-Kept}
use bmc_secret_operator.Resolver.{extract_credentials, find_bmcs_for_secret}
use bmc_secret_operator.Reconciler.{BmcSecretReconciler, done}
use bmc_secret_operator.Reconciler.Status.{sync_status_name}
use bmc_secret_operator.Reconciler.Quiet.{IsQuietAround}
use bmc_secret_operator.Reconciler.Deletion.{
  contains_finalizer, remove_finalizer, release, delete_sync_status, delete_secrets, cleanup,
  record_duration, handle_deletion,
}

module _ {S B L : Type 0} {r : BmcSecretReconciler S B} {stored : S → L → Option SecretData}
    (around : IsQuietAround r stored) (l : L) (P : Option SecretData → Type 0) where
  pub record_duration-Kept : (start : ℕ) → Kept stored l P (record_duration r start)
  unfolding record_duration
  record_duration-Kept start = with_metrics-Kept around l P _ (λ m quiet.
      Keeps-bind r.now (quiet_Kept stored l P _ around.now_quiet)
        (λ end. quiet_Kept stored l P _ (quiet.duration_quiet "deletion" (end - start))))

module _ {S B L : Type 0} {r : BmcSecretReconciler S B} {stored : S → L → Option SecretData}
    (around : IsQuietAround r stored) (l : L) (P : Option SecretData → Type 0)
    (deletes : (backend : B) (s : S)
      → (r.backend_factory.get_backend s).0 ≡ ok backend
      → (path_builder : PathBuilder) (s' : S)
      → (r.backend_factory.get_path_builder s').0 ≡ ok path_builder
      → (key username : String) (bmcs : List Bmc)
      → Kept stored l P (delete_secrets r backend path_builder key username bmcs)) where
  release-Kept : (secret : BmcSecret) → Kept stored l P (release r secret)
  unfolding release
  release-Kept secret =
      Keeps-attempt (r.client.update_bmc_secret (remove_finalizer secret))
        (quiet_Kept stored l P _ (around.update_quiet _)) (λ e. Keeps-pure _)
        (λ s c _. Keeps-pure _)

  delete_sync_status-Kept : (name : String) → Kept stored l P (delete_sync_status r name)
  unfolding delete_sync_status
  delete_sync_status-Kept name =
      Keeps-attempt (r.client.get_sync_status (sync_status_name name))
        (quiet_Kept stored l P _ (around.get_status_quiet _)) (λ e. Keeps-pure tt)
        (λ s status _.
          Keeps-bind (r.client.delete_sync_status status)
            (quiet_Kept stored l P _ (around.delete_status_quiet status)) (λ _. Keeps-pure tt))

  pub find_bmcs-Kept :
      (name : String) → Kept stored l P (find_bmcs_for_secret r.client.list_bmcs name)
  unfolding find_bmcs_for_secret
  find_bmcs-Kept name =
      Keeps-attempt r.client.list_bmcs (quiet_Kept stored l P _ around.list_quiet)
        (λ e. Keeps-pure _) (λ _ _ _. Keeps-pure _)

  cleanup-Kept : (secret : BmcSecret) → Kept stored l P (cleanup r secret)
  unfolding cleanup
  cleanup-Kept secret =
      let give_up = release-Kept secret in
      Keeps->> (delete_sync_status-Kept secret.name) (
        Keeps-attempt r.backend_factory.get_backend
          (quiet_Kept stored l P _ around.get_backend_quiet)
          (λ e. Keeps->> (quiet_Kept stored l P _ (around.event_quiet _ _ _ _)) give_up)
          λ s backend got.
            Keeps-attempt r.backend_factory.get_path_builder
              (quiet_Kept stored l P _ around.get_path_builder_quiet) (λ e. give_up)
              λ s' path_builder got'.
                Keeps-attempt r.backend_factory.get_region_label_key
                  (quiet_Kept stored l P _ around.get_region_label_key_quiet) (λ e. give_up)
                  λ _ key _.
                    Keeps-attempt (pure (extract_credentials secret)) (Keeps-pure _) (λ e. give_up)
                      λ _ credentials _.
                        Keeps-attempt (find_bmcs_for_secret r.client.list_bmcs secret.name)
                          (find_bmcs-Kept secret.name) (λ e. give_up)
                          λ _ bmcs _.
                            Keeps->>
                              (deletes backend s got path_builder s' got' key credentials.0 bmcs)
                              give_up)

  pub handle_deletion-Kept : (secret : BmcSecret) → Kept stored l P (handle_deletion r secret)
  unfolding handle_deletion
  handle_deletion-Kept secret = Keeps-bind r.now (quiet_Kept stored l P _ around.now_quiet) λ start.
      Keeps-bind (if contains_finalizer secret then cleanup r secret else pure (done 0))
        (Keeps-if (contains_finalizer secret) (cleanup-Kept secret) (Keeps-pure _))
        λ exit. Keeps->> (record_duration-Kept around l P start) (Keeps-pure exit)
