-- ===== src/Reconciler/Reconcile/Converges/Setting.antt =====
-- What a run meets when everything answers, and what it should leave.
use bmc_secret_operator.Base.{◌≡◌, ℕ, String, true, false, Option, none, some, List}
use bmc_secret_operator.Base.{All, length, ◌=ℕ◌, ok}
use bmc_secret_operator.Api.Metal.{Bmc, BmcSecret}
use bmc_secret_operator.PathBuilder.{PathBuilder, PathVariables, build}
use bmc_secret_operator.Interface.{EngineBackend, SecretData}
use bmc_secret_operator.Resolver.{extract_credentials, matching_bmcs}
use bmc_secret_operator.Reconciler.{BmcSecretReconciler}
use bmc_secret_operator.Reconciler.Sync.{Job, password_of}
use bmc_secret_operator.Reconciler.Sync.Again.{IsHealthy}
use bmc_secret_operator.Reconciler.Sync.Round.{variables}
use bmc_secret_operator.Reconciler.Reconcile.{lacks_sync_label, ensure_finalizer}

-- What a run meets: the answers of the cluster and of the configuration.
pub record Situation : Type 0 where
  pub name : String
  pub read : BmcSecret
  pub updated : BmcSecret
  pub bmcs : List Bmc
  pub sync_label : String
  pub region_label_key : String
  pub username : String
  pub password : String

-- They are given at every time: the secret is labelled, live, finalized and complete.
pub record IsAnswered {S B : Type 0} (r : BmcSecretReconciler S B) (c : Situation) : Type 0 where
  pub is_read : (s : S) → (r.client.get_bmc_secret c.name s).0 ≡ ok c.read
  pub label_is_read : (s : S) → (r.backend_factory.get_sync_label s).0 ≡ ok c.sync_label
  pub is_labelled : lacks_sync_label c.sync_label c.read ≡ false
  pub is_live : c.read.deletion_timestamp ≡ none
  pub is_finalized : (s : S) → (ensure_finalizer r c.read s).0 ≡ ok c.updated
  pub is_listed : (s : S) → (r.client.list_bmcs s).0 ≡ ok c.bmcs
  pub is_complete : extract_credentials c.updated ≡ ok (c.username, c.password)
  pub key_is_got : (s : S) → (r.backend_factory.get_region_label_key s).0 ≡ ok c.region_label_key

-- A backend and its path builder: every path can be built, and every call returns.
pub record IsServing {S B L : Type 0} (r : BmcSecretReconciler S B) (place : B → String → L)
    (stored : S → L → Option SecretData) (backend : B) (path_builder : PathBuilder) : Type 0 where
  pub is_healthy : IsHealthy r place stored backend
  pub is_built : (vars : PathVariables) → (path : String) × (build path_builder vars ≡ ok path)
  pub is_written :
      (path : String) (content : SecretData) (s : S)
      → (r.backends.write_secret backend path content s).0 ≡ ok tt

-- There are no secret engines, and the factory has a backend and a path builder.
pub record IsSingle {S B L : Type 0} (r : BmcSecretReconciler S B) (place : B → String → L)
    (stored : S → L → Option SecretData) (backend : B) (path_builder : PathBuilder) : Type 0 where
  pub is_single : (s : S) → (r.backend_factory.has_multi_engine_config s).0 ≡ ok false
  pub backend_is_got : (s : S) → (r.backend_factory.get_backend s).0 ≡ ok backend
  pub builder_is_got : (s : S) → (r.backend_factory.get_path_builder s).0 ≡ ok path_builder
  pub is_serving : IsServing r place stored backend path_builder

abbrev pub AreServing :
    {S B L : Type 0}
    → BmcSecretReconciler S B
    → (B → String → L)
    → (S → L → Option SecretData)
    → List (EngineBackend B)
    → Type 0
AreServing r place stored engines =
    All (λ engine. IsServing r place stored engine.backend engine.path_builder) engines

-- There are secret engines, and some match the secret's labels.
pub record IsMulti {S B L : Type 0} (r : BmcSecretReconciler S B) (place : B → String → L)
    (stored : S → L → Option SecretData) (c : Situation) (engines : List (EngineBackend B))
    : Type 0 where
  pub is_multi : (s : S) → (r.backend_factory.has_multi_engine_config s).0 ≡ ok true
  pub engines_are_got :
      (s : S) → (r.backend_factory.get_engine_backends c.updated.labels s).0 ≡ ok engines
  pub engines_are_some : (length engines =ℕ 0) ≡ false
  pub are_serving : AreServing r place stored engines

abbrev pub job_at : Situation → ℕ → Job
job_at c time = record {
  secret_name = c.updated.name;
  username = c.username;
  password = c.password;
  region_label_key = c.region_label_key;
  sync_time = time;
}

-- The BMCs that refer to the secret.
abbrev pub mine : Situation → List Bmc
mine c = matching_bmcs c.updated.name c.bmcs

module _ {S B L : Type 0} (place : B → String → L) (stored : S → L → Option SecretData)
    (c : Situation) where
  -- The BMC's path has the secret's password.
  abbrev pub HasPassword : B → PathBuilder → S → Bmc → Type 0
  HasPassword backend path_builder s bmc =
      (path : String) × (build path_builder (variables (job_at c 0) bmc) ≡ ok path)
      × (password_of (stored s (place backend path)) ≡ some c.password)

  abbrev pub AllHave : B → PathBuilder → List Bmc → S → Type 0
  AllHave backend path_builder bmcs s = All (HasPassword backend path_builder s) bmcs

  abbrev pub EnginesHave : List (EngineBackend B) → List Bmc → S → Type 0
  EnginesHave engines bmcs s =
      All (λ engine. AllHave engine.backend engine.path_builder bmcs s) engines
