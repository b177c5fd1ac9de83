-- ===== src/Reconciler/Reconcile/Writes.antt =====
-- What a whole run may do to a place of a backend.
use bmc_secret_operator.PathBuilder.{PathBuilder}
use bmc_secret_operator.Base.{
  ℕ, ◌≡◌, ◌⊎◌, inl, inr, refl, String, Option, none, some, List, [], ◌∷◌, ok, length, error_of,
  ◌=ℕ◌,
}
use bmc_secret_operator.Base.Effect.{Eff, attempt, pure}
use bmc_secret_operator.Base.Effect.Keeps.{
  Keeps-pure, Keeps-if, Keeps->>, Keeps-bind, Keeps-attempt,
}
use bmc_secret_operator.Api.Metal.{Bmc, BmcSecret}
use bmc_secret_operator.Interface.{EngineBackend, SecretData, str}
use bmc_secret_operator.Base.Dict.{Dict}
use bmc_secret_operator.Base.{All, All-map, All-of}
use bmc_secret_operator.Reconciler.Sync.Writes.{Fills}
use bmc_secret_operator.Interface.Store.{IsStore, IsQuiet}
use bmc_secret_operator.Resolver.{extract_credentials, find_bmcs_for_secret}
use bmc_secret_operator.Reconciler.{BmcSecretReconciler, failed}
use bmc_secret_operator.Reconciler.Quiet.{IsQuietAround}
use bmc_secret_operator.Reconciler.Kept.{Kept, quiet_Kept, with_metrics-Kept}
use bmc_secret_operator.Reconciler.Deletion.{delete_secrets, contains_finalizer, handle_deletion}
use bmc_secret_operator.Reconciler.Deletion.Kept.{find_bmcs-Kept, handle_deletion-Kept}
use bmc_secret_operator.Reconciler.Deletion.Clears.{delete_secrets-Kept}
use bmc_secret_operator.Reconciler.Reconcile.{
  lacks_sync_label, sync_credentials, discover_and_sync, ensure_finalizer, reconcile_body,
  reconcile,
}
use bmc_secret_operator.Reconciler.Reconcile.Paths.{
  FillsWithPair, metrics-Kept, reconcile_single_engine-Kept, reconcile_multi_engine-Kept,
}

module _ {S B L : Type 0} (r : BmcSecretReconciler S B) {place : B → String → L}
    {stored : S → L → Option SecretData} (store : IsStore r.backends place stored)
    (around : IsQuietAround r stored) (l : L) (P : Option SecretData → Type 0)
    (fills_single : (backend : B) (s : S)
      → (r.backend_factory.get_backend s).0 ≡ ok backend
      → (path_builder : PathBuilder) (s' : S)
      → (r.backend_factory.get_path_builder s').0 ≡ ok path_builder
      → FillsWithPair place l P backend path_builder)
    (fills_multi : (labels : Option (Dict String)) (s : S) (engines : List (EngineBackend B))
      → (r.backend_factory.get_engine_backends labels s).0 ≡ ok engines
      → All (λ engine. FillsWithPair place l P engine.backend engine.path_builder) engines)
    (empties : (backend : B) (s : S)
      → (r.backend_factory.get_backend s).0 ≡ ok backend
      → (path_builder : PathBuilder) (s' : S)
      → (r.backend_factory.get_path_builder s').0 ≡ ok path_builder
      → Fills place l backend path_builder (P none)) where
  abbrev K : {A : Type 0} → Eff S A → Type 0
  K m = Kept stored l P m

  quiet : {A : Type 0} (m : Eff S A) → IsQuiet stored m → K m
  quiet m q = quiet_Kept stored l P m q

  deletes :
      (backend : B) (s : S)
      → (r.backend_factory.get_backend s).0 ≡ ok backend
      → (path_builder : PathBuilder) (s' : S)
      → (r.backend_factory.get_path_builder s').0 ≡ ok path_builder
      → (key username : String) (bmcs : List Bmc)
      → K (delete_secrets r backend path_builder key username bmcs)
  deletes backend s got path_builder s' got' key username bmcs =
      delete_secrets-Kept r store l P backend path_builder key username
        (empties backend s got path_builder s' got') bmcs

  sync_credentials-Kept :
      (secret : BmcSecret) (bmcs : List Bmc) → K (sync_credentials r secret bmcs)
  unfolding sync_credentials
  sync_credentials-Kept secret bmcs =
      Keeps->>
        (with_metrics-Kept around l P
          (λ m. m.record_credential_extraction secret.name (error_of (extract_credentials secret)))
          (λ m q. quiet _ (q.extraction_quiet _ _)))
        (Keeps-attempt (pure (extract_credentials secret)) (Keeps-pure _)
          (λ e. Keeps->> (quiet _ (around.event_quiet _ _ _ _)) (Keeps-pure _))
          λ _ credentials _.
            Keeps-attempt r.backend_factory.has_multi_engine_config
              (quiet _ around.has_multi_engine_config_quiet) (λ e. Keeps-pure _)
              λ _ multi _.
                Keeps-if multi
                  (reconcile_multi_engine-Kept r store around l P fills_single fills_multi secret
                    bmcs credentials.0 credentials.1)
                  (reconcile_single_engine-Kept r store around l P fills_single fills_multi secret
                    bmcs credentials.0 credentials.1))

  discover_and_sync-Kept : (secret : BmcSecret) → K (discover_and_sync r secret)
  unfolding discover_and_sync
  discover_and_sync-Kept secret =
      Keeps-attempt (find_bmcs_for_secret r.client.list_bmcs secret.name)
        (find_bmcs-Kept around l P deletes secret.name)
        (λ e. Keeps->> (quiet _ (around.event_quiet _ _ _ _)) (Keeps-pure _))
        λ _ bmcs _.
          Keeps->>
            (with_metrics-Kept around l P (λ m. m.record_bmc_count secret.name (length bmcs))
              (λ m q. quiet _ (q.count_quiet _ _)))
            (Keeps-if (length bmcs =ℕ 0)
              (Keeps->> (quiet _ (around.event_quiet _ _ _ _)) (Keeps-pure _))
              (sync_credentials-Kept secret bmcs))

  live_or_deleted-Kept :
      (secret : BmcSecret) (deleted : Option ℕ)
      → K (elim deleted [
        | some _ ↦ handle_deletion r secret
        | none ↦ attempt (ensure_finalizer r secret) (λ e. pure (failed 0 e)) (discover_and_sync r)
      ])
  unfolding ensure_finalizer
  live_or_deleted-Kept secret (some _) = handle_deletion-Kept around l P deletes secret
  live_or_deleted-Kept secret none =
      Keeps-attempt (ensure_finalizer r secret)
        (Keeps-if (contains_finalizer secret) (Keeps-pure _) (quiet _ (around.update_quiet _)))
        (λ e. Keeps-pure _) (λ _ updated _. discover_and_sync-Kept updated)

  reconcile_body-Kept : (name : String) → K (reconcile_body r name)
  unfolding reconcile_body
  reconcile_body-Kept name =
      Keeps-attempt (r.client.get_bmc_secret name) (quiet _ (around.get_secret_quiet _))
        (λ e. Keeps-if e.not_found (Keeps-pure _) (Keeps-pure _))
        λ _ secret _.
          Keeps-attempt r.backend_factory.get_sync_label (quiet _ around.get_sync_label_quiet)
            (λ e. Keeps-pure _)
            λ _ sync_label _.
              Keeps-if (lacks_sync_label sync_label secret) (Keeps-pure _)
                (live_or_deleted-Kept secret secret.deletion_timestamp)

  reconcile-Kept : (name : String) → K (reconcile r name)
  unfolding reconcile
  reconcile-Kept name = Keeps-bind r.now (quiet _ around.now_quiet) λ start.
      Keeps-bind (reconcile_body r name) (reconcile_body-Kept name)
        (λ exit. Keeps->> (metrics-Kept r around l P start exit) (Keeps-pure exit))

-- Given stores, and surroundings that leave them alone: whatever the cluster, the factory and the
-- backends answer, a run leaves each place of the backends as it was, or empty, or with exactly a
-- username and a password, so it never leaves a secret with one of the two, or with other keys that
-- were not there.
pub reconcile-writes :
    {S B L : Type 0} (r : BmcSecretReconciler S B) {place : B → String → L}
    {stored : S → L → Option SecretData}
    → IsStore r.backends place stored
    → IsQuietAround r stored
    → (name : String) (s : S) (l : L)
    → let after = stored (reconcile r name s).1 l in
      (after ≡ stored s l)
      ⊎ ((after ≡ none)
          ⊎ ((username : String) × (password : String) × (after
                ≡ some (("username", str username) ∷ ("password", str password) ∷ []))))
reconcile-writes r {stored} store around name s l =
    (reconcile-Kept r store around l
        (λ after.
          (after ≡ stored s l)
          ⊎ ((after ≡ none)
              ⊎ ((username : String) × (password : String) × (after
                    ≡ some (("username", str username) ∷ ("password", str password) ∷ [])))))
        (λ _ _ _ _ _ _ username password _ _ _ _. inr (inr (username, password, refl)))
        (λ _ _ engines _.
          All-of _ (λ _ username password _ _ _ _. inr (inr (username, password, refl))) engines)
        (λ _ _ _ _ _ _ _ _ _ _. inr (inl refl)) name).at
      s (inl refl)

-- Given stores, and surroundings that leave them alone: a run, be it a sync or a deletion, does not
-- change a place that no path builder of the factory builds the path of: neither the one that
-- GetPathBuilder returns, for the backend that GetBackend returns, nor an engine's for its backend.
pub reconcile-keeps :
    {S B L : Type 0} (r : BmcSecretReconciler S B) {place : B → String → L}
    {stored : S → L → Option SecretData}
    → IsStore r.backends place stored
    → IsQuietAround r stored
    → (l : L)
    → ((backend : B) (s : S)
        → (r.backend_factory.get_backend s).0 ≡ ok backend
        → (path_builder : PathBuilder) (s' : S)
        → (r.backend_factory.get_path_builder s').0 ≡ ok path_builder
        → Fills place l backend path_builder ⊥)
    → ((labels : Option (Dict String)) (s : S) (engines : List (EngineBackend B))
        → (r.backend_factory.get_engine_backends labels s).0 ≡ ok engines
        → All (λ engine. Fills place l engine.backend engine.path_builder ⊥) engines)
    → (name : String) (s : S) → stored (reconcile r name s).1 l ≡ stored s l
reconcile-keeps r {place} {stored} store around l apart engines_apart name s =
    (reconcile-Kept r store around l (λ after. after ≡ stored s l)
        (λ backend s got path_builder s' got' username password vars path b here.
          absurd (apart backend s got path_builder s' got' vars path b here))
        (λ labels s engines got.
          All-map (λ engine. Fills place l engine.backend engine.path_builder ⊥) _
            (λ engine no username password vars path b here. absurd (no vars path b here)) engines
            (engines_apart labels s engines got))
        (λ backend s got path_builder s' got' vars path b here.
          absurd (apart backend s got path_builder s' got' vars path b here))
        name).at
      s refl
