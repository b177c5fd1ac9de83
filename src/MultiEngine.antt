-- ===== src/MultiEngine.antt =====
-- internal/secretbackend/multi_engine.go
pub mod Labels
use Prim.Native.Char.{code}
use bmc_secret_operator.Base.{String, ◌<>◌, Bool, true, false, Option, none, some, ◌==◌}
use bmc_secret_operator.Base.{List, [], ◌∷◌, ◌=ℕ◌, Result, ok, err, wrap, if◌then◌else◌}
use bmc_secret_operator.Base.Effect.{Eff, attempt, pure}
use bmc_secret_operator.Base.Dict.{Dict, lookup}
use bmc_secret_operator.Api.Config.{SecretEngineConfig}
use bmc_secret_operator.PathBuilder.{Template, new_path_builder, default_template}
use bmc_secret_operator.Interface.{EngineBackend, MetricsCollector}
use bmc_secret_operator.Config.{VaultConfigInternal, or_default}
use bmc_secret_operator.Vault
use bmc_secret_operator.Vault.Client.{VaultApi}
use bmc_secret_operator.Vault.New.{new_vault_backend}
use bmc_secret_operator.Backend.{Backend, vault}

-- `strings.SplitN(s, "=", 2)`: the text before the first '=', and the text behind it if there is one.
unfoldable pub split_at_equals : String → String × Option String
split_at_equals String.[] = ("", none)
split_at_equals (String.◌∷◌ c s) =
    if code c =ℕ b'='
    then ("", some s)
    else (String.◌∷◌ c (split_at_equals s).0, (split_at_equals s).1)

unfoldable pub parse_sync_label : String → String × String
unfolding split_at_equals
parse_sync_label sync_label = elim ((split_at_equals sync_label).1) [
  | some value ↦ ((split_at_equals sync_label).0, value)
  | none ↦ ((split_at_equals sync_label).0, "")
]

unfoldable pub matches_labels : {B : Type 0} → EngineBackend B → Option (Dict String) → Bool
matches_labels e none = false
matches_labels e (some labels) =
    if e.sync_label_val == ""
    then elim (lookup e.sync_label_key labels) [ none ↦ false | some _ ↦ true ]
    else elim (lookup e.sync_label_key labels) [ none ↦ false | some val ↦ val == e.sync_label_val ]

-- `filterEnginesByLabels` of factory.go
unfoldable pub filter_engines_by_labels :
    {B : Type 0} → List (EngineBackend B) → Option (Dict String) → List (EngineBackend B)
filter_engines_by_labels [] labels = []
filter_engines_by_labels (e ∷ engines) labels =
    if matches_labels e labels
    then e ∷ filter_engines_by_labels engines labels
    else filter_engines_by_labels engines labels

-- The base configuration with the engine's mount path.
abbrev pub engine_vault_config : VaultConfigInternal → SecretEngineConfig → Vault.Config
engine_vault_config base engine = record {
  address = base.address;
  auth_method = base.auth_method;
  kubernetes_auth_role = base.kubernetes_auth_role;
  kubernetes_auth_path = base.kubernetes_auth_path;
  token = base.token;
  mount_path = engine.mount_path;
  skip_verify = base.skip_verify;
  ca_cert = base.ca_cert;
}

module _ {S C : Type 0} (api : VaultApi S C) (parse : String → Result Template) where
  -- One round of the loop.
  unfoldable pub new_engine_backend :
      Option (MetricsCollector S)
      → VaultConfigInternal
      → SecretEngineConfig
      → Eff S (Result (EngineBackend (Backend C)))
  new_engine_backend collector base engine =
      attempt (new_vault_backend api collector (engine_vault_config base engine))
        (λ e. pure (err (wrap ("failed to create backend for engine " <> engine.name) e)))
        λ backend.
          attempt (pure (new_path_builder parse (or_default engine.path_template default_template)))
            (λ e. pure (err (wrap ("failed to create path builder for engine " <> engine.name) e)))
            λ path_builder. pure (
              ok (record {
                backend = vault backend;
                engine_name = engine.name;
                path_builder = path_builder;
                sync_label = engine.sync_label;
                sync_label_key = (parse_sync_label engine.sync_label).0;
                sync_label_val = (parse_sync_label engine.sync_label).1;
              }))

  unfoldable pub parse_secret_engine_config :
      Option (MetricsCollector S)
      → VaultConfigInternal
      → List SecretEngineConfig
      → Eff S (Result (List (EngineBackend (Backend C))))
  parse_secret_engine_config collector base [] = pure (ok [])
  parse_secret_engine_config collector base (engine ∷ engines) =
      attempt (new_engine_backend collector base engine) (λ e. pure (err e))
        λ eb.
          attempt (parse_secret_engine_config collector base engines) (λ e. pure (err e))
            λ rest. pure (ok (eb ∷ rest))
