-- ===== src/Reconciler/Deletion.antt =====
-- `handleDeletion`: the cleanup of a BMCSecret that is being deleted.
pub mod Finalizer
pub mod Clears
pub mod Kept
use bmc_secret_operator.Base.{ℕ, ◌-◌, String, Bool, true, false, Option, none, some, ◌==◌}
use bmc_secret_operator.Base.{List, [], ◌∷◌, ◌++◌, any, select, not, Result, ok, err, if◌then◌else◌}
use bmc_secret_operator.Base.Effect.{Eff, ◌>>=◌, ◌>>◌, attempt, ignore, pure}
use bmc_secret_operator.Api.Metal.{Bmc, BmcSecret}
use bmc_secret_operator.PathBuilder.{PathBuilder, build}
use bmc_secret_operator.Resolver.{
  extract_region_from_bmc, get_hostname_from_bmc, extract_credentials, find_bmcs_for_secret,
}
use bmc_secret_operator.Reconciler.{
  BmcSecretReconciler, bmc_secret_finalizer, Exit, done, with_metrics,
}
use bmc_secret_operator.Reconciler.Status.{sync_status_name}

-- controllerutil.ContainsFinalizer, AddFinalizer and RemoveFinalizer
unfoldable pub contains_finalizer : BmcSecret → Bool
contains_finalizer secret = any (λ f. f == bmc_secret_finalizer) secret.finalizers

unfoldable pub add_finalizer : BmcSecret → BmcSecret
unfolding contains_finalizer
add_finalizer secret =
    if contains_finalizer secret
    then secret
    else record secret { finalizers = secret.finalizers ++ bmc_secret_finalizer ∷ [] }

unfoldable pub remove_finalizer : BmcSecret → BmcSecret
remove_finalizer secret = record secret {
  finalizers = select (λ f. not (f == bmc_secret_finalizer)) secret.finalizers;
}

module _ {S B : Type 0} (r : BmcSecretReconciler S B) where
  -- `RemoveFinalizer`, `Update`, and the two returns behind them. No error reaches `reconcileErr`.
  unfoldable pub release : BmcSecret → Eff S Exit
  release secret =
      attempt (r.client.update_bmc_secret (remove_finalizer secret))
        (λ e. pure (record { requeue_after = 0; error = some e; reconcile_err = none }))
        (λ _. pure (done 0))

  -- The status object is read and deleted if it can be; neither error stops the cleanup.
  unfoldable pub delete_sync_status : String → Eff S (Unit {0})
  delete_sync_status secret_name =
      attempt (r.client.get_sync_status (sync_status_name secret_name)) (λ _. pure tt)
        λ sync_status. ignore (r.client.delete_sync_status sync_status)

  -- One round of the loop: a path that cannot be built, or deleted, is passed over.
  unfoldable pub delete_bmc : B → PathBuilder → String → String → Bmc → Eff S (Unit {0})
  delete_bmc backend path_builder region_label_key username bmc =
      elim (build path_builder (record {
        region = extract_region_from_bmc bmc region_label_key;
        hostname = get_hostname_from_bmc bmc;
        username = username;
      })) [ err _ ↦ pure tt | ok path ↦ ignore (r.backends.delete_secret backend path) ]

  unfoldable pub delete_secrets : B → PathBuilder → String → String → List Bmc → Eff S (Unit {0})
  delete_secrets backend path_builder region_label_key username [] = pure tt
  delete_secrets backend path_builder region_label_key username (bmc ∷ rest) =
      delete_bmc backend path_builder region_label_key username bmc
      >> delete_secrets backend path_builder region_label_key username rest

  unfoldable pub cleanup : BmcSecret → Eff S Exit
  cleanup secret =
      delete_sync_status secret.name
      >> attempt r.backend_factory.get_backend
          (λ e.
            r.event secret.name "Warning" "CleanupFailed" "Backend unavailable during cleanup"
            >> release secret)
          λ backend.
            attempt r.backend_factory.get_path_builder (λ _. release secret)
              λ path_builder.
                attempt r.backend_factory.get_region_label_key (λ _. release secret)
                  λ region_label_key.
                    attempt (pure (extract_credentials secret)) (λ _. release secret)
                      λ (username, _).
                        attempt (find_bmcs_for_secret r.client.list_bmcs secret.name)
                          (λ _. release secret)
                          λ bmcs.
                            delete_secrets backend path_builder region_label_key username bmcs
                            >> release secret

  -- The deferred function.
  unfoldable pub record_duration : ℕ → Eff S (Unit {0})
  record_duration start =
      with_metrics r (λ m. r.now >>= λ end. m.record_reconcile_duration "deletion" (end - start))

  unfoldable pub handle_deletion : BmcSecret → Eff S Exit
  handle_deletion secret = do
    start ← r.now
    exit ← if contains_finalizer secret then cleanup secret else pure (done 0)
    record_duration start
    pure exit
