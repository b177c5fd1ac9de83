-- ===== src/Factory/Growth.antt =====
-- What the factory's getters leave of its fields: a backend stays, and whatever is cached, the
-- configuration is cached with it.
pub mod Getters
use bmc_secret_operator.Base.{String, arith, ◌≡◌, ◌∙◌, ◌⊎◌, refl, true, Option, some, List, ◌∷◌}
use bmc_secret_operator.Base.{Result, ok, err, inl, inr, Result-cases, List-cases, Option-cases}
use bmc_secret_operator.Base.Dict.{Dict}
use bmc_secret_operator.Api.Config.{SecretBackendConfig}
use bmc_secret_operator.Interface.{EngineBackend}
use bmc_secret_operator.Interface.Store.{is_some}
use bmc_secret_operator.PathBuilder.{PathBuilder, new_path_builder}
use bmc_secret_operator.Config.{Config, VaultConfigInternal}
use bmc_secret_operator.MultiEngine.{parse_secret_engine_config}
use bmc_secret_operator.Backend.{Backend}
use bmc_secret_operator.Factory.{Factory, World, Deps, outside, load_config, ensure_config}
use bmc_secret_operator.Factory.{default_backend_config_name}
use bmc_secret_operator.Factory.Caching.{ensure_config-config}
use bmc_secret_operator.Factory.Getters.{
  create_backend, get_backend_locked, get_path_builder_locked,
}
use bmc_secret_operator.Factory.Engines.{
  engines_of_resource, create_engine_backends, get_engine_backends, secret_engines,
}

module _ {C : Type 0} where
  -- Nothing is cached without the configuration.
  pub record IsConfigured (f : Factory C) : Type 0 where
    pub by_backend : is_some f.backend ≡ true → is_some f.config ≡ true
    pub by_path_builder : is_some f.path_builder ≡ true → is_some f.config ≡ true
    pub by_engines : is_some f.engine_backends ≡ true → is_some f.config ≡ true

  -- The backend is the same, and the configuration is there if it was, and if more is cached.
  pub record Grows (f f' : Factory C) : Type 0 where
    pub backend_same : f'.backend ≡ f.backend
    pub config_kept : is_some f.config ≡ true → is_some f'.config ≡ true
    pub path_builder_new : (f'.path_builder ≡ f.path_builder) ⊎ (is_some f'.config ≡ true)
    pub engines_new : (f'.engine_backends ≡ f.engine_backends) ⊎ (is_some f'.config ≡ true)

  pub Grows-refl : (f : Factory C) → Grows f f
  Grows-refl f = record {
    backend_same = refl;
    config_kept = λ h. h;
    path_builder_new = inl refl;
    engines_new = inl refl;
  }

  pub Grows-trans : {f g h : Factory C} → Grows f g → Grows g h → Grows f h
  Grows-trans {f} {g} {h} a b = record {
    backend_same = b.backend_same ∙ a.backend_same;
    config_kept = λ c. b.config_kept (a.config_kept c);
    path_builder_new = elim b.path_builder_new [
      | inr there ↦ inr there
      | inl same ↦ elim a.path_builder_new [
        | inr there ↦ inr (b.config_kept there)
        | inl before ↦ inl (same ∙ before)
      ]
    ];
    engines_new = elim b.engines_new [
      | inr there ↦ inr there
      | inl same ↦ elim a.engines_new [
        | inr there ↦ inr (b.config_kept there)
        | inl before ↦ inl (same ∙ before)
      ]
    ];
  }

  -- Something is cached beside the configuration.
  pub path_builder-Grows :
      (f : Factory C) (pb : PathBuilder) (c : Config)
      → f.config ≡ some c
      → Grows f (record f { path_builder = some pb })
  path_builder-Grows f pb c e = record {
    backend_same = refl;
    config_kept = λ h. h;
    path_builder_new = inr (rw e refl);
    engines_new = inl refl;
  }

  pub engines-Grows :
      (f : Factory C) (ebs : List (EngineBackend (Backend C))) (c : Config)
      → f.config ≡ some c
      → Grows f (record f { engine_backends = some ebs })
  engines-Grows f ebs c e = record {
    backend_same = refl;
    config_kept = λ h. h;
    path_builder_new = inl refl;
    engines_new = inr (rw e refl);
  }

  pub Grows-IsConfigured : {f f' : Factory C} → Grows f f' → IsConfigured f → IsConfigured f'
  Grows-IsConfigured g c = record {
    by_backend = λ h. g.config_kept (c.by_backend (rw (← g.backend_same) h));
    by_path_builder = λ h. elim g.path_builder_new [
      | inl same ↦ g.config_kept (c.by_path_builder (rw (← same) h))
      | inr there ↦ there
    ];
    by_engines = λ h. elim g.engines_new [
      | inl same ↦ g.config_kept (c.by_engines (rw (← same) h))
      | inr there ↦ there
    ];
  }
