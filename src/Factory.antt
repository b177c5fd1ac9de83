-- ===== src/Factory.antt =====
-- internal/secretbackend/factory.go: `BackendFactory`. Its fields are the record `Factory`, beside
-- the state `E` of everything outside. Every method body runs under the factory's lock; the quick
-- look under the read lock comes before it.
pub mod Getters
pub mod Engines
pub mod Release
pub mod Caching
pub mod Growth
pub mod Interleaving
pub mod Invalidation
pub mod Token
pub mod Stores
use bmc_secret_operator.Base.{String, ◌<>◌, Bool, true, false, Option, none, some, ◌==◌}
use bmc_secret_operator.Base.{List, [], ◌∷◌, Result, ok, err, errorf, wrap, if◌then◌else◌}
use bmc_secret_operator.Base.Effect.{Eff, ◌>>=◌, ◌>>◌, attempt, pure}
use bmc_secret_operator.Base.Dict.{Dict}
use bmc_secret_operator.Api.Config.{SecretBackendConfig, SecretEngineConfig}
use bmc_secret_operator.PathBuilder.{PathBuilder, Template, new_path_builder}
use bmc_secret_operator.Interface.{
  BackendFactoryInterface, BackendInterface, EngineBackend, MetricsCollector, SecretData,
}
use bmc_secret_operator.Config.{
  Config, VaultConfigInternal, Environment, load_config_from_crd, load_config_from_env,
}
use bmc_secret_operator.MultiEngine.{filter_engines_by_labels, parse_secret_engine_config}
use bmc_secret_operator.Vault
use bmc_secret_operator.Vault.Client.{VaultApi}
use bmc_secret_operator.Vault.New.{new_vault_backend}
use bmc_secret_operator.Backend
use bmc_secret_operator.Backend.{Backend, vault, instrumented, instrumented_with_engine}

pub record Factory (C : Type 0) : Type 0 where
  pub backend : Option (Backend C)
  pub path_builder : Option PathBuilder
  pub config : Option Config
  pub engine_backends : Option (List (EngineBackend (Backend C)))

pub record World (E C : Type 0) : Type 0 where
  pub factory : Factory C
  pub outside : E

-- What the factory calls: the cluster, the environment, Vault, the template parser, and the
-- collector of the struct (nil as `none`).
pub record Deps (E C : Type 0) : Type 0 where
  pub get_config : String → Eff E (Result SecretBackendConfig)
  pub getenv : Environment
  pub vault_api : VaultApi E C
  pub parse : String → Result Template
  pub collector : Option (MetricsCollector E)

abbrev pub new_backend_factory : {C : Type 0} → Factory C
new_backend_factory = record {
  backend = none;
  path_builder = none;
  config = none;
  engine_backends = none;
}

abbrev pub default_backend_config_name : String
default_backend_config_name = "default-backend-config"

module _ {E C A : Type 0} where
  -- A call to the outside leaves the factory's fields alone.
  unfoldable pub outside : Eff E A → Eff (World E C) A
  outside m w = let (a, e) = m w.outside in (a, record w { outside = e })

module _ {E C : Type 0} where
  abbrev pub factory : Eff (World E C) (Factory C)
  factory w = (w.factory, w)

  abbrev pub set_factory : Factory C → Eff (World E C) (Unit {0})
  set_factory f w = (tt, record w { factory = f })

module _ {E C : Type 0} (d : Deps E C) where
  -- The CRD if it can be read, whatever the error otherwise, else the environment.
  unfoldable pub load_config : Eff (World E C) (Result Config)
  load_config = do
    crd ← outside (d.get_config default_backend_config_name)
    elim crd [
      | ok backend_config ↦ pure (load_config_from_crd (some backend_config))
      | err _ ↦ pure (load_config_from_env d.getenv)
    ]

  -- `if f.config == nil { … f.config = config }`, and the configuration.
  unfoldable pub ensure_config : Eff (World E C) (Result Config)
  ensure_config = do
    f ← factory
    elim f.config [
      | some config ↦ pure (ok config)
      | none ↦
          attempt load_config (λ e. pure (err (wrap "failed to load configuration" e)))
            λ config. do set_factory (record f { config = some config }); pure (ok config)
    ]
