-- ===== src/Factory/Getters.antt =====
-- The methods of `BackendFactory` that create and cache the backend and the path builder.
use bmc_secret_operator.Base.{String, ◌<>◌, none, some, ◌==◌}
use bmc_secret_operator.Base.{Result, ok, err, errorf, wrap, if◌then◌else◌}
use bmc_secret_operator.Base.Effect.{Eff, ◌>>=◌, ◌>>◌, attempt, pure}
use bmc_secret_operator.PathBuilder.{PathBuilder, new_path_builder}
use bmc_secret_operator.Config.{Config, VaultConfigInternal}
use bmc_secret_operator.Vault
use bmc_secret_operator.Vault.New.{new_vault_backend}
use bmc_secret_operator.Backend.{Backend, vault, instrumented}
use bmc_secret_operator.Factory.{
  World, Deps, outside, factory, set_factory, load_config, ensure_config,
}

module _ {E C : Type 0} (d : Deps E C) where
  abbrev pub vault_config : VaultConfigInternal → Vault.Config
  vault_config c = record {
    address = c.address;
    auth_method = c.auth_method;
    kubernetes_auth_role = c.kubernetes_auth_role;
    kubernetes_auth_path = c.kubernetes_auth_path;
    token = c.token;
    mount_path = c.mount_path;
    skip_verify = c.skip_verify;
    ca_cert = c.ca_cert;
  }

  -- `newInstrumentedBackend` if there is a collector
  abbrev instrument : Backend C → String → Backend C
  instrument b backend_type = elim d.collector [ none ↦ b | some _ ↦ instrumented b backend_type ]

  unfoldable pub create_backend : Config → Eff (World E C) (Result (Backend C))
  create_backend config =
      if config.backend == "vault"
      then elim config.vault_config [
        | none ↦ pure (err (errorf "vault configuration is required when backend is vault"))
        | some c ↦
            attempt (outside (new_vault_backend d.vault_api d.collector (vault_config c)))
              (λ e. pure (err e)) (λ v. pure (ok (instrument (vault v) config.backend)))
      ]
      else if config.backend == "openbao"
      then pure (err (errorf "OpenBao backend not yet implemented"))
      else pure (err (errorf ("unsupported backend type: " <> config.backend)))

  -- `GetBackend` under the write lock, its second look at the cache included.
  unfoldable pub get_backend_locked : Eff (World E C) (Result (Backend C))
  get_backend_locked = do
    f ← factory
    elim f.backend [
      | some b ↦ pure (ok b)
      | none ↦
          attempt (load_config d) (λ e. pure (err (wrap "failed to load configuration" e)))
            λ config.
              attempt (create_backend config) (λ e. pure (err (wrap "failed to create backend" e)))
                λ b. do
                  g ← factory
                  set_factory (record g { backend = some b; config = some config })
                  pure (ok b)
    ]

  unfoldable pub get_backend : Eff (World E C) (Result (Backend C))
  get_backend = do f ← factory; elim f.backend [ some b ↦ pure (ok b) | none ↦ get_backend_locked ]

  unfoldable pub get_path_builder_locked : Eff (World E C) (Result PathBuilder)
  get_path_builder_locked = do
    f ← factory
    elim f.path_builder [
      | some pb ↦ pure (ok pb)
      | none ↦
          attempt (ensure_config d) (λ e. pure (err e))
            λ config.
              attempt (pure (new_path_builder d.parse config.path_template))
                (λ e. pure (err (wrap "failed to create path builder" e)))
                λ pb. do
                  g ← factory
                  set_factory (record g { path_builder = some pb })
                  pure (ok pb)
    ]

  unfoldable pub get_path_builder : Eff (World E C) (Result PathBuilder)
  get_path_builder = do
    f ← factory
    elim f.path_builder [ some pb ↦ pure (ok pb) | none ↦ get_path_builder_locked ]

  unfoldable pub get_region_label_key : Eff (World E C) (Result String)
  get_region_label_key =
      attempt (ensure_config d) (λ e. pure (err e)) (λ config. pure (ok config.region_label_key))

  unfoldable pub get_sync_label : Eff (World E C) (Result String)
  get_sync_label =
      attempt (ensure_config d) (λ e. pure (err e)) (λ config. pure (ok config.sync_label))
