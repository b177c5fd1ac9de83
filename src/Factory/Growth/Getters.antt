-- ===== src/Factory/Growth/Getters.antt =====
-- The getters of the factory, under its lock, let its fields grow.
use bmc_secret_operator.Base.{String, arith, ◌≡◌, refl, Option, some, ◌∷◌}
use bmc_secret_operator.Base.{Result, ok, err, inl, inr, Result-cases, List-cases, Option-cases}
use bmc_secret_operator.Base.Dict.{Dict}
use bmc_secret_operator.Api.Config.{SecretBackendConfig}
use bmc_secret_operator.PathBuilder.{new_path_builder}
use bmc_secret_operator.Config.{Config, VaultConfigInternal}
use bmc_secret_operator.MultiEngine.{parse_secret_engine_config}
use bmc_secret_operator.Factory.{World, Deps, outside, load_config, ensure_config}
use bmc_secret_operator.Factory.{default_backend_config_name}
use bmc_secret_operator.Factory.Caching.{ensure_config-config}
use bmc_secret_operator.Factory.Getters.{
  create_backend, get_backend_locked, get_path_builder_locked,
}
use bmc_secret_operator.Factory.Engines.{
  engines_of_resource, create_engine_backends, get_engine_backends, secret_engines,
}
use bmc_secret_operator.Factory.Growth.{
  Grows, Grows-refl, Grows-trans, IsConfigured, path_builder-Grows, engines-Grows,
}

module _ {E C : Type 0} (d : Deps E C) where
  load_config-factory : (w : World E C) → (load_config d w).1.factory ≡ w.factory
  unfolding load_config outside
  load_config-factory w = ground arith

  pub ensure_config-Grows : (w : World E C) → Grows w.factory (ensure_config d w).1.factory
  unfolding ensure_config
  ensure_config-Grows w = elim (Option-cases w.factory.config) [
    | inr (c, e) ↦ simp (e, ensure_config) (Grows-refl w.factory)
    | inl e ↦ elim (Result-cases (load_config d w).0) [
      | inr (failed, l) ↦
          simp (e, ensure_config)
            (rw (l, ensure_config) (rw (load_config-factory w) (Grows-refl w.factory)))
      | inl (loaded, l) ↦
          simp (e, ensure_config)
            (rw (l, ensure_config)
              (record {
                backend_same = refl;
                config_kept = λ h. refl;
                path_builder_new = inl refl;
                engines_new = inl refl;
              }))
    ]
  ]

  pub get_path_builder_locked-Grows :
      (w : World E C) → Grows w.factory (get_path_builder_locked d w).1.factory
  unfolding get_path_builder_locked
  get_path_builder_locked-Grows w = elim (Option-cases w.factory.path_builder) [
    | inr (pb, e) ↦ simp (e, get_path_builder_locked) (Grows-refl w.factory)
    | inl e ↦ elim (Result-cases (ensure_config d w).0) [
      | inr (failed, l) ↦
          simp (e, get_path_builder_locked)
            (rw (l, get_path_builder_locked) (ensure_config-Grows w))
      | inl (config, l) ↦ elim (Result-cases (new_path_builder d.parse config.path_template)) [
        | inr (failed, m) ↦
            simp (e, get_path_builder_locked)
              (rw (l, m, get_path_builder_locked) (ensure_config-Grows w))
        | inl (created, m) ↦
            simp (e, get_path_builder_locked)
              (rw (l, m, get_path_builder_locked)
                (Grows-trans (ensure_config-Grows w)
                  (path_builder-Grows _ created config (ensure_config-config d w config l))))
      ]
    ]
  ]

  engines_of_resource-Grows :
      (config : Config) (base : VaultConfigInternal) (crd : Result SecretBackendConfig)
      (w : World E C)
      → w.factory.config ≡ some config
      → Grows w.factory (engines_of_resource d config base crd w).1.factory
  unfolding engines_of_resource outside
  engines_of_resource-Grows config base (err failed) w e = Grows-refl w.factory
  engines_of_resource-Grows config base (ok crd) w e = elim (List-cases (secret_engines d crd)) [
    | inl n ↦ rw (n, engines_of_resource) (Grows-refl w.factory)
    | inr (engine, engines, n) ↦
        elim (Result-cases
          (parse_secret_engine_config d.vault_api d.parse d.collector base (engine ∷ engines)
            w.outside).0) [
              | inr (failed, y) ↦ rw (n, y, engines_of_resource) (Grows-refl w.factory)
              | inl (ebs, y) ↦ rw (n, y, engines_of_resource) (engines-Grows _ _ config e)
            ]
  ]

  create_engine_backends-Grows :
      (config : Config) (base : VaultConfigInternal) (w : World E C)
      → w.factory.config ≡ some config
      → Grows w.factory (create_engine_backends d config base w).1.factory
  unfolding create_engine_backends outside
  create_engine_backends-Grows config base w e =
      let (read, after) = d.get_config default_backend_config_name w.outside in
      engines_of_resource-Grows config base read (record w { outside = after }) e

  pub get_engine_backends-Grows :
      (labels : Option (Dict String)) (w : World E C)
      → Grows w.factory (get_engine_backends d labels w).1.factory
  unfolding get_engine_backends create_engine_backends engines_of_resource
  get_engine_backends-Grows labels w = elim (Option-cases w.factory.engine_backends) [
    | inr (ebs, e) ↦ simp (e, get_engine_backends) (Grows-refl w.factory)
    | inl e ↦ elim (Result-cases (ensure_config d w).0) [
      | inr (failed, l) ↦
          simp (e, get_engine_backends) (rw (l, get_engine_backends) (ensure_config-Grows w))
      | inl (config, l) ↦ elim (Option-cases config.vault_config) [
        | inl v ↦
            simp (e, get_engine_backends) (rw (l, v, get_engine_backends) (ensure_config-Grows w))
        | inr (base, v) ↦
            let grown = Grows-trans (ensure_config-Grows w) (
              create_engine_backends-Grows config base (ensure_config d w).1
                (ensure_config-config d w config l)) in
            elim (Result-cases (create_engine_backends d config base (ensure_config d w).1).0) [
              | inl (made, x) ↦
                  simp (e, get_engine_backends) (rw (l, v, x, get_engine_backends) grown)
              | inr (failed, x) ↦
                  simp (e, get_engine_backends) (rw (l, v, x, get_engine_backends) grown)
            ]
      ]
    ]
  ]

  create_backend-factory :
      (config : Config) (w : World E C) → (create_backend d config w).1.factory ≡ w.factory
  unfolding create_backend outside
  create_backend-factory config w = ground arith

  -- The backend that is there stays, and a new one comes with its configuration.
  pub get_backend_locked-IsConfigured :
      (w : World E C) → IsConfigured w.factory → IsConfigured (get_backend_locked d w).1.factory
  unfolding get_backend_locked
  get_backend_locked-IsConfigured w h = elim (Option-cases w.factory.backend) [
    | inr (b, e) ↦ simp (e, get_backend_locked) h
    | inl e ↦ elim (Result-cases (load_config d w).0) [
      | inr (failed, l) ↦
          simp (e, get_backend_locked) (rw (l, get_backend_locked) (rw (load_config-factory w) h))
      | inl (config, l) ↦ elim (Result-cases (create_backend d config (load_config d w).1).0) [
        | inr (failed, m) ↦
            simp (e, get_backend_locked)
              (rw (l, m, get_backend_locked)
                (rw (create_backend-factory config (load_config d w).1, load_config-factory w) h))
        | inl (created, m) ↦
            simp (e, get_backend_locked)
              (rw (l, m, get_backend_locked)
                (record {
                  by_backend = λ _. refl;
                  by_path_builder = λ _. refl;
                  by_engines = λ _. refl;
                }))
      ]
    ]
  ]
