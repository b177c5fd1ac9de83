-- ===== src/Factory/Engines.antt =====
-- The methods of `BackendFactory` for several secret engines.
use bmc_secret_operator.Base.{String, Bool, true, false, Option, none, some}
use bmc_secret_operator.Base.{List, [], ◌∷◌, Result, ok, err, wrap}
use bmc_secret_operator.Base.Effect.{Eff, ◌>>=◌, ◌>>◌, attempt, pure}
use bmc_secret_operator.Base.Dict.{Dict}
use bmc_secret_operator.Api.Config.{SecretBackendConfig, SecretEngineConfig}
use bmc_secret_operator.Interface.{EngineBackend}
use bmc_secret_operator.Config.{Config, VaultConfigInternal}
use bmc_secret_operator.MultiEngine.{filter_engines_by_labels, parse_secret_engine_config}
use bmc_secret_operator.Backend.{Backend, instrumented_with_engine}
use bmc_secret_operator.Factory.{
  World, Deps, default_backend_config_name, outside, factory, set_factory, ensure_config,
}

module _ {E C : Type 0} (d : Deps E C) where
  -- `backendConfig.Spec.VaultConfig.SecretEngines`, empty without a Vault configuration
  abbrev pub secret_engines : SecretBackendConfig → List SecretEngineConfig
  secret_engines c = elim c.spec.vault_config [ none ↦ [] | some v ↦ v.secret_engines ]

  abbrev instrument_engines :
      String → List (EngineBackend (Backend C)) → List (EngineBackend (Backend C))
  instrument_engines backend_type [] = []
  instrument_engines backend_type (eb ∷ rest) =
      record eb {
        backend = elim d.collector [
          | none ↦ eb.backend
          | some _ ↦ instrumented_with_engine eb.backend backend_type eb.engine_name
        ];
      }
      ∷ instrument_engines backend_type rest

  -- The engines of the CRD that was read, created and cached; no engines is not cached.
  unfoldable pub engines_of_resource :
      Config
      → VaultConfigInternal
      → Result SecretBackendConfig
      → Eff (World E C) (Result (List (EngineBackend (Backend C))))
  engines_of_resource config base (err _) = pure (ok [])
  engines_of_resource config base (ok backend_config) = elim (secret_engines backend_config) [
    | [] ↦ pure (ok [])
    | engine ∷ engines ↦
        attempt
          (outside
            (parse_secret_engine_config d.vault_api d.parse d.collector base (engine ∷ engines)))
          (λ e. pure (err (wrap "failed to parse secret engine config" e)))
          λ ebs. do
            let wrapped = instrument_engines config.backend ebs
            g ← factory
            set_factory (record g { engine_backends = some wrapped })
            pure (ok wrapped)
  ]

  unfoldable pub create_engine_backends :
      Config → VaultConfigInternal → Eff (World E C) (Result (List (EngineBackend (Backend C))))
  create_engine_backends config base = do
    crd ← outside (d.get_config default_backend_config_name)
    engines_of_resource config base crd

  unfoldable pub get_engine_backends :
      Option (Dict String) → Eff (World E C) (Result (List (EngineBackend (Backend C))))
  get_engine_backends labels = do
    f ← factory
    elim f.engine_backends [
      | some ebs ↦ pure (ok (filter_engines_by_labels ebs labels))
      | none ↦
          attempt (ensure_config d) (λ e. pure (err e))
            λ config. elim config.vault_config [
              | none ↦ pure (ok [])
              | some base ↦
                  attempt (create_engine_backends config base) (λ e. pure (err e))
                    (λ ebs. pure (ok (filter_engines_by_labels ebs labels)))
            ]
    ]

  -- Not cached, and an unreadable CRD is no error.
  unfoldable pub has_multi_engine_config : Eff (World E C) (Result Bool)
  has_multi_engine_config = do
    crd ← outside (d.get_config default_backend_config_name)
    elim crd [
      | err _ ↦ pure (ok false)
      | ok backend_config ↦
          pure (ok (elim (secret_engines backend_config) [ [] ↦ false | _ ∷ _ ↦ true ]))
    ]
