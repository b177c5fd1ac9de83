-- ===== src/Reconciler/Reconcile/Reported.antt =====
-- The runs of the two sync paths with another function in place of the status update.
use bmc_secret_operator.Base.{◌≡◌, ◌∙◌, refl, ℕ, String, Option, List, [], ◌∷◌}
use bmc_secret_operator.Base.{
  All, All-map, length, ◌=ℕ◌, Result, ok, inl, inr, Result-cases, Bool-cases,
}
use bmc_secret_operator.Base.Effect.{Eff}
use bmc_secret_operator.Api.Metal.{Bmc, BmcSecret}
use bmc_secret_operator.Api.SyncStatus.{BmcSecretSyncStatus}
use bmc_secret_operator.Interface.{SecretData}
use bmc_secret_operator.Interface.Store.{IsStore}
use bmc_secret_operator.Interface.{EngineBackend}
use bmc_secret_operator.Resolver.{extract_credentials, find_bmcs_for_secret}
use bmc_secret_operator.Reconciler.{BmcSecretReconciler}
use bmc_secret_operator.Reconciler.Quiet.{IsQuietAround}
use bmc_secret_operator.Reconciler.Sync.{Progress, no_progress, Job}
use bmc_secret_operator.Reconciler.Sync.Tally.{
  IsTally, IsTally-length, sync_single-IsTally, sync_engines-IsTally,
}
use bmc_secret_operator.Reconciler.Sync.Somewhere.{
  IsSomewhere, sync_single-AllSomewhere, sync_engines-AllSomewhere,
}
use bmc_secret_operator.Reconciler.Status.{
  get_or_create_sync_status, next_status, update_sync_status,
}
use bmc_secret_operator.Reconciler.Status.Conditions.{next_status-condition}
use bmc_secret_operator.Reconciler.Reconcile.{
  report, reconcile_single_engine, reconcile_multi_engine, sync_credentials, discover_and_sync,
}
use bmc_secret_operator.Reconciler.Reconcile.Paths.{get_or_create_sync_status-Kept}
use bmc_secret_operator.Reconciler.Reconcile.Truth.{
  IsTruthful, with_update, attempt_agrees, sync_single-with_update, sync_engines-with_update,
}

module _ {S B L : Type 0} (r : BmcSecretReconciler S B) {place : B → String → L}
    {stored : S → L → Option SecretData} (store : IsStore r.backends place stored)
    (around : IsQuietAround r stored)
    (update : BmcSecretSyncStatus → Eff S (Result (Unit {0}))) where
  -- The other function agrees with the client's on truthful objects, for one password.
  abbrev pub AgreesOnTruth : String → Type 0
  AgreesOnTruth password =
      (object : BmcSecretSyncStatus) (s : S)
      → IsTruthful place stored password s object
      → update object s ≡ r.client.update_sync_status object s

  -- The counters and the entries of a finished loop.
  record IsFinished (password : String) (n : ℕ) (p : Progress) (s : S) : Type 0 where
    tally : IsTally n p
    entries : All (IsSomewhere (λ b. Unit {0}) place stored password s) p.backend_paths

  next_status-IsTruthful :
      {password : String} {n : ℕ} {p : Progress} {s s' : S} (old : BmcSecretSyncStatus) (t t' : ℕ)
      → IsFinished password n p s
      → ((l : L) → stored s' l ≡ stored s l)
      → IsTruthful place stored password s'
          (next_status old p.backend_paths t t' n p.sync_success p.sync_errors)
  unfolding next_status
  next_status-IsTruthful {password} {n} {p} {s} {s'} old t t' f same = record {
    total = f.tally.entries;
    successful = f.tally.synced;
    failed = f.tally.failed;
    whole = f.tally.total;
    condition = next_status-condition old p.backend_paths t t' n p.sync_success p.sync_errors;
    entries =
        All-map (IsSomewhere (λ b. Unit {0}) place stored password s) _
          (λ bp e. elim e [
            | inl failed ↦ inl failed
            | inr (synced, (b, a, there)) ↦ inr (synced, (b, a, rw (same (place b bp.path)) there))
          ])
          p.backend_paths f.entries;
  }

  update_sync_status-agrees :
      {password : String} {n : ℕ} {p : Progress} {s : S} (name : String)
      → AgreesOnTruth password
      → IsFinished password n p s
      → update_sync_status
          (with_update r update)
          name
          p.backend_paths
          n
          p.sync_success
          p.sync_errors
          s
        ≡ update_sync_status r name p.backend_paths n p.sync_success p.sync_errors s
  unfolding update_sync_status get_or_create_sync_status
  update_sync_status-agrees {s} name agrees f =
      attempt_agrees (get_or_create_sync_status r name) _ _ _ s λ old.
        let s1 = (get_or_create_sync_status r name s).1 in
        let s2 = (r.now s1).1 in
        let s3 = (r.now s2).1 in
        agrees _ s3 (
          next_status-IsTruthful {s' = s3} old (r.now s1).0 (r.now s2).0 f λ l.
            around.now_quiet s2 l
            ∙ around.now_quiet s1 l
            ∙ (get_or_create_sync_status-Kept r around l (λ c. c ≡ stored s l) name).at s refl)

  reconcile_single_engine-agrees :
      (secret : BmcSecret) (bmcs : List Bmc) (username password : String) (s : S)
      → AgreesOnTruth password
      → reconcile_single_engine (with_update r update) secret bmcs username password s
        ≡ reconcile_single_engine r secret bmcs username password s
  unfolding reconcile_single_engine report
  reconcile_single_engine-agrees secret bmcs username password s agrees =
      attempt_agrees r.backend_factory.get_backend _ _ _ s λ backend.
        attempt_agrees r.backend_factory.get_path_builder _ _ _ _ λ path_builder.
          attempt_agrees r.backend_factory.get_region_label_key _ _ _ _ λ key.
            let t =
              r.now
                (r.backend_factory.get_region_label_key
                  (r.backend_factory.get_path_builder (r.backend_factory.get_backend s).1).1).1 in
            let job : Job = record {
              secret_name = secret.name;
              username = username;
              password = password;
              region_label_key = key;
              sync_time = t.0;
            } in
            rw (sync_single-with_update r update backend path_builder job bmcs t.1) (
              rw
                (update_sync_status-agrees secret.name agrees (record {
                  tally = sync_single-IsTally r job bmcs backend path_builder t.1;
                  entries =
                      sync_single-AllSomewhere r store around.event_quiet job bmcs (λ b. Unit {0})
                        backend path_builder t.1 tt;
                }))
                refl)

  reconcile_multi_engine-agrees :
      (secret : BmcSecret) (bmcs : List Bmc) (username password : String) (s : S)
      → AgreesOnTruth password
      → reconcile_multi_engine (with_update r update) secret bmcs username password s
        ≡ reconcile_multi_engine r secret bmcs username password s
  unfolding reconcile_multi_engine report
  reconcile_multi_engine-agrees secret bmcs username password s agrees =
      attempt_agrees r.backend_factory.get_region_label_key _ _ _ s λ key.
        attempt_agrees (r.backend_factory.get_engine_backends secret.labels) _ _ _ _ λ engines.
          elim (Bool-cases (length engines =ℕ 0)) [
            | inl empty ↦ rw empty refl
            | inr more ↦
                let t =
                  r.now
                    (r.backend_factory.get_engine_backends secret.labels
                      (r.backend_factory.get_region_label_key s).1).1 in
                let job : Job = record {
                  secret_name = secret.name;
                  username = username;
                  password = password;
                  region_label_key = key;
                  sync_time = t.0;
                } in
                rw more (
                  rw (sync_engines-with_update r update job bmcs engines no_progress t.1) (
                    rw
                      (update_sync_status-agrees secret.name agrees (record {
                        tally = IsTally-length (sync_engines-IsTally r job bmcs engines t.1);
                        entries =
                            sync_engines-AllSomewhere r store around.event_quiet job bmcs
                              (λ b. Unit {0}) engines no_progress t.1 (every engines) tt;
                      }))
                      refl))
          ]
    where
      every : (engines : List (EngineBackend B)) → All (λ e. Unit {0}) engines
      every [] = tt
      every (e ∷ rest) = (tt, every rest)

  -- Whatever the credentials are: without a complete pair nothing is written.
  sync_credentials-agrees :
      (secret : BmcSecret) (bmcs : List Bmc) (s : S)
      → ((username password : String)
          → extract_credentials secret ≡ ok (username, password)
          → AgreesOnTruth password)
      → sync_credentials (with_update r update) secret bmcs s ≡ sync_credentials r secret bmcs s
  unfolding sync_credentials
  sync_credentials-agrees secret bmcs s agrees = elim (Result-cases (extract_credentials secret)) [
    | inr (e, x) ↦ rw x refl
    | inl ((username, password), x) ↦ rw x (
        attempt_agrees r.backend_factory.has_multi_engine_config _ _ _ _ λ multi.
          elim (Bool-cases multi) [
            | inl m ↦ rw m (
                reconcile_multi_engine-agrees secret bmcs username password _
                  (agrees username password x))
            | inr m ↦ rw m (
                reconcile_single_engine-agrees secret bmcs username password _
                  (agrees username password x))
          ])
  ]

  -- Given stores, and surroundings that leave them alone: from the discovery of the BMCs on, a run
  -- updates the status only with truthful objects. Any function that agrees on these with the
  -- client's update gives the same run: the counts are those of the entries, the Synced condition
  -- is True exactly if none failed, and each Success names a path where the secret's password is.
  pub discover_and_sync-agrees :
      (secret : BmcSecret) (s : S)
      → ((username password : String)
          → extract_credentials secret ≡ ok (username, password)
          → AgreesOnTruth password)
      → discover_and_sync (with_update r update) secret s ≡ discover_and_sync r secret s
  unfolding discover_and_sync
  discover_and_sync-agrees secret s agrees =
      attempt_agrees (find_bmcs_for_secret r.client.list_bmcs secret.name) _ _ _ s λ bmcs.
        elim (Bool-cases (length bmcs =ℕ 0)) [
          | inl empty ↦ rw empty refl
          | inr more ↦ rw more (sync_credentials-agrees secret bmcs _ agrees)
        ]
