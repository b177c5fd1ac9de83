-- ===== src/Reconciler/Reconcile/Departs.antt =====
-- A run of the reconciler for a secret that is being deleted, when everything answers.
use bmc_secret_operator.Base.{
  ◌≡◌, refl, ℕ, String, true, false, if◌then◌else◌, Option, some, ok, All, All-map, inl, inr,
}
use bmc_secret_operator.Base.Effect.{Eff, pure}
use bmc_secret_operator.Base.Effect.Leads.{Leads, Leads-pure, Leads->>, Leads-bind, Leads-attempt}
use bmc_secret_operator.PathBuilder.{PathBuilder}
use bmc_secret_operator.Interface.{SecretData}
use bmc_secret_operator.Interface.Store.{IsStore, IsQuiet}
use bmc_secret_operator.Resolver.{extract_credentials, find_bmcs_for_secret, matching_bmcs}
use bmc_secret_operator.Reconciler.{BmcSecretReconciler, Exit, done}
use bmc_secret_operator.Reconciler.Quiet.{IsQuietAround}
use bmc_secret_operator.Reconciler.Deletion.Kept.{record_duration-Kept}
use bmc_secret_operator.Reconciler.Deletion.{
  contains_finalizer, remove_finalizer, release, delete_sync_status, delete_secrets, cleanup,
  record_duration, handle_deletion,
}
use bmc_secret_operator.Reconciler.Deletion.Clears.{IsCleared, delete_secrets-clears}
use bmc_secret_operator.Reconciler.Reconcile.{lacks_sync_label, reconcile_body, reconcile}
use bmc_secret_operator.Reconciler.Reconcile.Paths.{deferred, metrics-Kept}
use bmc_secret_operator.Reconciler.Reconcile.Converges.Setting.{Situation}

-- The answers are given at every time: the secret is labelled, complete, being deleted and has the
-- finalizer, every deletion returns, and so does the update that drops the finalizer.
pub record IsDeparting {S B : Type 0} (r : BmcSecretReconciler S B) (c : Situation) (backend : B)
    (path_builder : PathBuilder) : Type 0 where
  pub is_read : (s : S) → (r.client.get_bmc_secret c.name s).0 ≡ ok c.read
  pub label_is_read : (s : S) → (r.backend_factory.get_sync_label s).0 ≡ ok c.sync_label
  pub is_labelled : lacks_sync_label c.sync_label c.read ≡ false
  pub is_deleted : (time : ℕ) × (c.read.deletion_timestamp ≡ some time)
  pub is_marked : contains_finalizer c.read ≡ true
  pub is_listed : (s : S) → (r.client.list_bmcs s).0 ≡ ok c.bmcs
  pub is_complete : extract_credentials c.read ≡ ok (c.username, c.password)
  pub backend_is_got : (s : S) → (r.backend_factory.get_backend s).0 ≡ ok backend
  pub builder_is_got : (s : S) → (r.backend_factory.get_path_builder s).0 ≡ ok path_builder
  pub key_is_got : (s : S) → (r.backend_factory.get_region_label_key s).0 ≡ ok c.region_label_key
  pub is_erased : (path : String) (s : S) → (r.backends.delete_secret backend path s).0 ≡ ok tt
  pub is_released :
      (s : S) → (r.client.update_bmc_secret (remove_finalizer c.read) s).0 ≡ ok c.updated

module _ {S B L : Type 0} (r : BmcSecretReconciler S B) {place : B → String → L}
    {stored : S → L → Option SecretData} (store : IsStore r.backends place stored) (c : Situation)
    (backend : B) (path_builder : PathBuilder) where
  -- Nothing is left at the paths of the BMCs that refer to the secret.
  abbrev pub AllCleared : S → Type 0
  AllCleared s =
      All (IsCleared r store backend path_builder c.region_label_key c.username s)
        (matching_bmcs c.read.name c.bmcs)

module _ {S B L : Type 0} (r : BmcSecretReconciler S B) {place : B → String → L}
    {stored : S → L → Option SecretData} (store : IsStore r.backends place stored)
    (around : IsQuietAround r stored) (c : Situation) (backend : B) (path_builder : PathBuilder)
    (departing : IsDeparting r c backend path_builder) where
  AllCleared-quiet :
      {A : Type 0} (m : Eff S A)
      → IsQuiet stored m
      → (s : S) → AllCleared r store c backend path_builder s
      → AllCleared r store c backend path_builder (m s).1
  AllCleared-quiet m q s h =
      All-map (IsCleared r store backend path_builder c.region_label_key c.username s)
        (IsCleared r store backend path_builder c.region_label_key c.username (m s).1)
        (λ bmc cleared. elim cleared [
          | inl failed ↦ inl failed
          | inr (path, b, gone) ↦ inr (path, b, rw (q s (place backend path)) gone)
        ])
        (matching_bmcs c.read.name c.bmcs) h

  abbrev Departs : Eff S Exit → Type 0
  Departs m =
      Leads (λ s. Unit {0}) m
        (λ exit s. (exit ≡ done 0) × AllCleared r store c backend path_builder s)

  release-Departs :
      Leads
        (AllCleared r store c backend path_builder)
        (release r c.read)
        (λ exit s. (exit ≡ done 0) × AllCleared r store c backend path_builder s)
  unfolding release
  release-Departs =
      Leads-attempt (r.client.update_bmc_secret (remove_finalizer c.read)) _ _ c.updated
        departing.is_released
        (AllCleared-quiet (r.client.update_bmc_secret (remove_finalizer c.read))
          (around.update_quiet (remove_finalizer c.read)))
        (Leads-pure (done 0) (λ s h. (refl, h)))

  cleanup-Departs : Departs (cleanup r c.read)
  unfolding cleanup find_bmcs_for_secret
  cleanup-Departs =
      Leads->> (delete_sync_status r c.read.name) (λ s h. tt)
        (Leads-attempt r.backend_factory.get_backend _ _ backend departing.backend_is_got
          (λ s h. tt)
          (Leads-attempt r.backend_factory.get_path_builder _ _ path_builder
            departing.builder_is_got (λ s h. tt)
            (Leads-attempt r.backend_factory.get_region_label_key _ _ c.region_label_key
              departing.key_is_got (λ s h. tt)
              (Leads-attempt (pure (extract_credentials c.read)) _ _ (c.username, c.password)
                (λ s. departing.is_complete) (λ s h. tt)
                (Leads-attempt (find_bmcs_for_secret r.client.list_bmcs c.read.name) _ _
                  (matching_bmcs c.read.name c.bmcs)
                  (λ s. rw (departing.is_listed s, find_bmcs_for_secret) refl) (λ s h. tt)
                  (Leads-bind {R = λ _ s. AllCleared r store c backend path_builder s}
                    (delete_secrets r backend path_builder c.region_label_key c.username
                      (matching_bmcs c.read.name c.bmcs))
                    (record {
                      at = λ s h.
                          delete_secrets-clears r store backend path_builder c.region_label_key
                            c.username departing.is_erased (matching_bmcs c.read.name c.bmcs) s;
                    })
                    (λ _. release-Departs)))))))

  handle_deletion-Departs : Departs (handle_deletion r c.read)
  unfolding handle_deletion
  handle_deletion-Departs =
      Leads-bind {R = λ _ s. Unit {0}} r.now (record { at = λ s h. tt })
        λ start.
          Leads-bind {R = λ exit s. (exit ≡ done 0) × AllCleared r store c backend path_builder s}
            (if contains_finalizer c.read then cleanup r c.read else pure (done 0))
            (rw departing.is_marked cleanup-Departs)
            λ exit.
              Leads->> (record_duration r start)
                (λ s (e, h). (
                  e,
                  AllCleared-quiet (record_duration r start)
                      (λ s l. (record_duration-Kept around l (λ o. o ≡ stored s l) start).at s refl)
                      s h,
                ))
                (Leads-pure exit (λ s h. h))

  reconcile_body-Departs : Departs (reconcile_body r c.name)
  unfolding reconcile_body
  reconcile_body-Departs =
      Leads-attempt (r.client.get_bmc_secret c.name) _ _ c.read departing.is_read (λ s h. tt)
        (Leads-attempt r.backend_factory.get_sync_label _ _ c.sync_label departing.label_is_read
          (λ s h. tt)
          (rw (departing.is_labelled)
            (simp (departing.is_deleted.1, reconcile_body) handle_deletion-Departs)))

  reconcile-Departs : Departs (reconcile r c.name)
  unfolding reconcile
  reconcile-Departs =
      Leads-bind {R = λ _ s. Unit {0}} r.now (record { at = λ s h. tt })
        λ start.
          Leads-bind {R = λ exit s. (exit ≡ done 0) × AllCleared r store c backend path_builder s}
            (reconcile_body r c.name) reconcile_body-Departs
            λ exit.
              Leads->> (deferred r start exit)
                (λ s (e, h). (
                  e,
                  AllCleared-quiet (deferred r start exit)
                      (λ s l. (metrics-Kept r around l (λ o. o ≡ stored s l) start exit).at s refl)
                      s h,
                ))
                (Leads-pure exit (λ s h. h))

  -- Given stores, and surroundings that leave them alone: when the cluster, the factory and the
  -- backend answer at every time, a run for a labelled, complete secret that is being deleted and
  -- has the finalizer returns no error, asks for no requeue, and leaves nothing at the path of any
  -- BMC that refers to the secret, of those whose path can be built.
  pub reconcile-AllCleared :
      (s : S)
      → ((reconcile r c.name s).0 ≡ done 0)
        × AllCleared r store c backend path_builder (reconcile r c.name s).1
  reconcile-AllCleared s = reconcile-Departs.at s tt
