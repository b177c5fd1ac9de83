-- ===== src/Reconciler/Reconcile/Exits.antt =====
-- How a run can end: what is returned, when the next run is due, and what the metrics are told.
use bmc_secret_operator.Base.{ℕ, sym, subst, Option, none, some, Error, String, List}
use bmc_secret_operator.Base.Effect.{attempt, pure}
use bmc_secret_operator.Base.Effect.Yields.{
  Yields, Yields-pure, Yields->>, Yields-if, Yields-attempt,
}
use bmc_secret_operator.Api.Metal.{Bmc, BmcSecret}
use bmc_secret_operator.Resolver.{extract_credentials, find_bmcs_for_secret}
use bmc_secret_operator.Reconciler.{
  BmcSecretReconciler, Exit, done, failed, requeue_after_normal, requeue_after_error,
}
use bmc_secret_operator.Reconciler.Deletion.{contains_finalizer, release, cleanup, handle_deletion}
use bmc_secret_operator.Reconciler.Deletion.Finalizer.{cleanup-EndsIn}
use bmc_secret_operator.Reconciler.Reconcile.{
  reconcile_single_engine, reconcile_multi_engine, sync_credentials, discover_and_sync,
  ensure_finalizer, reconcile_body, reconcile,
}

-- Without an error a run is not repeated, or in five minutes. With one, the queue's back-off
-- decides, or it is repeated in 30 seconds; the metrics hear of it, but for a failed release.
pub data IsExit : Exit → Type 0 where
  finished : IsExit (done 0)
  periodic : IsExit (done requeue_after_normal)
  backing_off : (e : Error) → IsExit (failed 0 e)
  retried : (e : Error) → IsExit (failed requeue_after_error e)
  release_failed :
      (e : Error) → IsExit (record { requeue_after = 0; error = some e; reconcile_err = none })

module _ {S B : Type 0} (r : BmcSecretReconciler S B) where
  reconcile_single_engine-IsExit :
      (secret : BmcSecret) (bmcs : List Bmc) (username password : String)
      → Yields IsExit (reconcile_single_engine r secret bmcs username password)
  unfolding reconcile_single_engine
  reconcile_single_engine-IsExit secret bmcs username password =
      Yields-attempt r.backend_factory.get_backend (λ e. Yields->> _ (Yields-pure (retried e)))
        λ backend.
          Yields-attempt r.backend_factory.get_path_builder (λ e. Yields-pure (retried e))
            λ path_builder.
              Yields-attempt r.backend_factory.get_region_label_key (λ e. Yields-pure (retried e))
                λ region_label_key. record { at = λ s. periodic }

  reconcile_multi_engine-IsExit :
      (secret : BmcSecret) (bmcs : List Bmc) (username password : String)
      → Yields IsExit (reconcile_multi_engine r secret bmcs username password)
  unfolding reconcile_multi_engine
  reconcile_multi_engine-IsExit secret bmcs username password =
      Yields-attempt r.backend_factory.get_region_label_key (λ e. Yields-pure (retried e))
        λ region_label_key.
          Yields-attempt (r.backend_factory.get_engine_backends secret.labels)
            (λ e. Yields->> _ (Yields-pure (retried e)))
            λ engines.
              Yields-if _ (Yields->> _ (Yields-pure periodic)) (record { at = λ s. periodic })

  discover_and_sync-IsExit : (secret : BmcSecret) → Yields IsExit (discover_and_sync r secret)
  unfolding discover_and_sync sync_credentials
  discover_and_sync-IsExit secret =
      Yields-attempt (find_bmcs_for_secret r.client.list_bmcs secret.name)
        (λ e. Yields->> _ (Yields-pure (retried e)))
        λ bmcs. Yields->> _ (
          Yields-if _ (Yields->> _ (Yields-pure periodic)) (
            Yields->> _ (
              Yields-attempt (pure (extract_credentials secret))
                (λ e. Yields->> _ (Yields-pure (retried e)))
                λ (username, password).
                  Yields-attempt r.backend_factory.has_multi_engine_config
                    (λ e. Yields-pure (retried e))
                    λ has_multi_engine.
                      Yields-if has_multi_engine
                        (reconcile_multi_engine-IsExit secret bmcs username password)
                        (reconcile_single_engine-IsExit secret bmcs username password))))

  release-IsExit : (secret : BmcSecret) → Yields IsExit (release r secret)
  unfolding release
  release-IsExit secret =
      Yields-attempt _ (λ e. Yields-pure (release_failed e)) (λ _. Yields-pure finished)

  handle_deletion-IsExit : (secret : BmcSecret) → Yields IsExit (handle_deletion r secret)
  unfolding handle_deletion
  handle_deletion-IsExit secret = record {
    at = λ s.
        (Yields-if (contains_finalizer secret) (cleanup-IsExit secret) (Yields-pure finished)).at
          (r.now s).1;
  }
    where
      cleanup-IsExit : (secret : BmcSecret) → Yields IsExit (cleanup r secret)
      cleanup-IsExit secret = record {
        at = λ s.
            let (s', e) = (cleanup-EndsIn r secret).from s in
            subst (λ (x : Exit × S). IsExit x.0) (sym e) ((release-IsExit secret).at s');
      }

  reconcile_body-IsExit : (name : String) → Yields IsExit (reconcile_body r name)
  unfolding reconcile_body
  reconcile_body-IsExit name =
      Yields-attempt (r.client.get_bmc_secret name)
        (λ e. Yields-if e.not_found (Yields-pure finished) (Yields-pure (backing_off e)))
        λ secret.
          Yields-attempt r.backend_factory.get_sync_label (λ e. Yields-pure (retried e))
            λ sync_label.
              Yields-if _ (Yields-pure finished) (by_timestamp secret secret.deletion_timestamp)
    where
      by_timestamp :
          (secret : BmcSecret) (t : Option ℕ)
          → Yields IsExit (elim t [
            | some _ ↦ handle_deletion r secret
            | none ↦
                attempt (ensure_finalizer r secret) (λ e. pure (failed 0 e)) (discover_and_sync r)
          ])
      by_timestamp secret (some _) = handle_deletion-IsExit secret
      by_timestamp secret none =
          Yields-attempt _ (λ e. Yields-pure (backing_off e)) discover_and_sync-IsExit

  -- Every run of the reconciler, whatever the cluster, the factory and the backends answer, ends in
  -- one of five ways: no error, and no requeue or one after 300 s; an error that is also reported to
  -- the metrics, with no requeue time or with one of 30 s; or the error of a deletion's last
  -- update, which is returned but not reported.
  pub reconcile-IsExit : (name : String) (s : S) → IsExit (reconcile r name s).0
  unfolding reconcile
  reconcile-IsExit name s = (reconcile_body-IsExit name).at (r.now s).1
