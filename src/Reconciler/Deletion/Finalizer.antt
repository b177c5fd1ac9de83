-- ===== src/Reconciler/Deletion/Finalizer.antt =====
-- `handleDeletion` and the finalizer.
use bmc_secret_operator.Base.{◌≡◌, refl, String, true, false, List, [], ◌∷◌, ◌++◌}
use bmc_secret_operator.Base.{
  arith, any, select, not, ◌==◌, eq_iff, eq_refl, inl, inr, ap, Bool-cases, if◌then◌else◌,
}
use bmc_secret_operator.Base.Effect.{pure, ◌>>=◌, ◌>>◌}
use bmc_secret_operator.Api.Metal.{BmcSecret}
use bmc_secret_operator.Resolver.{extract_credentials, find_bmcs_for_secret}
use bmc_secret_operator.Reconciler.{Exit, BmcSecretReconciler, done, bmc_secret_finalizer}
use bmc_secret_operator.Base.Effect.Ends.{EndsIn, EndsIn-last, EndsIn->>, EndsIn-attempt}
use bmc_secret_operator.Reconciler.Deletion.{
  contains_finalizer, add_finalizer, remove_finalizer, release, delete_sync_status, cleanup,
  record_duration, handle_deletion,
}

any-select-not :
    (f : String) (xs : List String) → any (λ x. x == f) (select (λ x. not (x == f)) xs) ≡ false
any-select-not f [] = refl
any-select-not f (x ∷ xs) = ground (arith, any-select-not f xs)

any-select_other :
    (f g : String) (xs : List String)
    → any (λ x. x == g) (select (λ x. not (x == f)) xs)
      ≡ (if g == f then false else any (λ x. x == g) xs)
any-select_other f g [] = ground arith
any-select_other f g (x ∷ xs) =
    ground (arith, any-select_other f g xs, eq_iff x f, eq_iff x g, eq_iff g f)

any-append_self : (f : String) (xs : List String) → any (λ x. x == f) (xs ++ f ∷ []) ≡ true
any-append_self f [] = rw eq_refl
any-append_self f (x ∷ xs) = ground (arith, any-append_self f xs)

add_finalizer_lem : (secret : BmcSecret) → contains_finalizer (add_finalizer secret) ≡ true
unfolding contains_finalizer add_finalizer
add_finalizer_lem secret =
    elim (Bool-cases (any (λ f. f == bmc_secret_finalizer) secret.finalizers)) [
      | inl h ↦ rw (h, add_finalizer) h
      | inr h ↦ rw (h, add_finalizer) (any-append_self bmc_secret_finalizer secret.finalizers)
    ]

-- Removing the finalizer leaves none of it and every other finalizer; adding it makes it present.
pub remove_finalizer_exact :
    (secret : BmcSecret) (other : String)
    → (contains_finalizer (remove_finalizer secret) ≡ false)
      × (contains_finalizer (add_finalizer secret) ≡ true)
      × (any (λ f. f == other) (remove_finalizer secret).finalizers ≡ (
          if other == bmc_secret_finalizer then false else any (λ f. f == other) secret.finalizers))
unfolding contains_finalizer remove_finalizer add_finalizer
remove_finalizer_exact secret other = (
  any-select-not bmc_secret_finalizer secret.finalizers,
  add_finalizer_lem secret,
  any-select_other bmc_secret_finalizer other secret.finalizers,
)

module _ {S B : Type 0} (r : BmcSecretReconciler S B) (secret : BmcSecret) where
  -- Every way through the cleanup ends in the release.
  pub cleanup-EndsIn : EndsIn (release r secret) (cleanup r secret)
  unfolding cleanup
  cleanup-EndsIn = EndsIn->> (delete_sync_status r secret.name) (
      EndsIn-attempt r.backend_factory.get_backend (λ e. EndsIn->> _ EndsIn-last)
        λ backend.
          EndsIn-attempt r.backend_factory.get_path_builder (λ e. EndsIn-last)
            λ path_builder.
              EndsIn-attempt r.backend_factory.get_region_label_key (λ e. EndsIn-last)
                λ region_label_key.
                  EndsIn-attempt (pure (extract_credentials secret)) (λ e. EndsIn-last)
                    λ credentials.
                      EndsIn-attempt (find_bmcs_for_secret r.client.list_bmcs secret.name)
                        (λ e. EndsIn-last) λ bmcs. EndsIn->> _ EndsIn-last)

  -- A deletion of an object that has the finalizer always ends with the update that removes it:
  -- whatever fails before (the status, the backend, the path builder, the region key, the
  -- credentials, the BMCs or a deletion), the run's exit and final state are those of the release
  -- from some state and of recording the duration, so the error returned, if any, is the update's.
  pub handle_deletion-releases :
      (s : S)
      → contains_finalizer secret ≡ true
      → (s' : S) × (handle_deletion r secret s
          ≡ (release r secret >>= λ exit. record_duration r (r.now s).0 >> pure exit) s')
  unfolding handle_deletion
  handle_deletion-releases s h =
      let (s', e) = cleanup-EndsIn.from (r.now s).1 in
      (
        s',
        rw (h, handle_deletion)
            (ap (λ (x : Exit × S). (record_duration r (r.now s).0 >> pure x.0) x.1) e),
      )

  -- Without the finalizer nothing is done but to read the clock and record the duration.
  pub handle_deletion-none :
      (s : S) → contains_finalizer secret ≡ false → (handle_deletion r secret s).0 ≡ done 0
  unfolding handle_deletion
  handle_deletion-none s h = rw (h, handle_deletion)
