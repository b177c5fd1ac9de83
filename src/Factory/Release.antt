-- ===== src/Factory/Release.antt =====
-- `Close` and `InvalidateCache`, and the factory as the interface that the reconcilers hold.
use bmc_secret_operator.Base.{◌<>◌, none, some}
use bmc_secret_operator.Base.{List, [], ◌∷◌, Result, ok, err, wrap}
use bmc_secret_operator.Base.Effect.{Eff, ◌>>=◌, ◌>>◌, attempt, pure}
use bmc_secret_operator.Interface.{BackendFactoryInterface, BackendInterface, EngineBackend}
use bmc_secret_operator.Backend
use bmc_secret_operator.Backend.{Backend, vault, instrumented, instrumented_with_engine}
use bmc_secret_operator.Factory.{Factory, World, Deps, outside, factory, set_factory}
use bmc_secret_operator.Factory.Getters.{
  get_backend, get_path_builder, get_region_label_key, get_sync_label,
}
use bmc_secret_operator.Factory.Engines.{get_engine_backends, has_multi_engine_config}

module _ {E C : Type 0} (d : Deps E C) where
  abbrev pub close_backend : Backend C → Eff (World E C) (Result (Unit {0}))
  unfolding outside
  close_backend b = outside (Backend.close d.vault_api d.collector b)

  unfoldable pub close : Eff (World E C) (Result (Unit {0}))
  close = do
    f ← factory
    elim f.backend [
      | none ↦ pure (ok tt)
      | some b ↦
          attempt (close_backend b) (λ e. pure (err e))
            λ _. do g ← factory; set_factory (record g { backend = none }); pure (ok tt)
    ]

  -- `if f.backend != nil { … }` of `InvalidateCache`
  unfoldable pub release_backend : Eff (World E C) (Result (Unit {0}))
  release_backend = do
    f ← factory
    elim f.backend [
      | none ↦ pure (ok tt)
      | some b ↦
          attempt (close_backend b)
            (λ e. pure (err (wrap "failed to close backend during cache invalidation" e)))
            λ _. do g ← factory; set_factory (record g { backend = none }); pure (ok tt)
    ]

  -- The loop over the engine backends: the first that does not close ends it.
  unfoldable pub close_engines :
      List (EngineBackend (Backend C)) → Eff (World E C) (Result (Unit {0}))
  close_engines [] = pure (ok tt)
  close_engines (eb ∷ rest) =
      attempt (close_backend eb.backend)
        (λ e. pure (err (wrap ("failed to close engine backend " <> eb.engine_name) e)))
        (λ _. close_engines rest)

  abbrev engines_of : Factory C → List (EngineBackend (Backend C))
  engines_of f = elim f.engine_backends [ none ↦ [] | some ebs ↦ ebs ]

  unfoldable pub invalidate_cache : Eff (World E C) (Result (Unit {0}))
  invalidate_cache =
      attempt release_backend (λ e. pure (err e))
        λ _. factory >>= λ f.
          attempt (close_engines (engines_of f)) (λ e. pure (err e))
            λ _. do
              g ← factory
              set_factory (record g { engine_backends = none; config = none; path_builder = none })
              pure (ok tt)

  abbrev pub methods : BackendFactoryInterface (World E C) (Backend C)
  methods = record {
    get_backend = get_backend d;
    get_path_builder = get_path_builder d;
    get_region_label_key = get_region_label_key d;
    get_sync_label = get_sync_label d;
    get_engine_backends = get_engine_backends d;
    has_multi_engine_config = has_multi_engine_config d;
    invalidate_cache = invalidate_cache;
    close = close;
  }

  -- The methods of the backends, over the factory's world.
  abbrev pub backend_methods : BackendInterface (World E C) (Backend C)
  backend_methods =
      let inner = Backend.methods d.vault_api d.collector in
      record {
        write_secret = λ b path content. outside (inner.write_secret b path content);
        read_secret = λ b path. outside (inner.read_secret b path);
        delete_secret = λ b path. outside (inner.delete_secret b path);
        secret_exists = λ b path. outside (inner.secret_exists b path);
        close = close_backend;
      }
