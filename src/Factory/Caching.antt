-- ===== src/Factory/Caching.antt =====
-- What the factory's getters keep.
use bmc_secret_operator.Base.{◌≡◌, none, some}
use bmc_secret_operator.Base.{Result, ok, inl, inr, Result-cases, Option-cases}
use bmc_secret_operator.Base.Effect.{Eff}
use bmc_secret_operator.PathBuilder.{PathBuilder, new_path_builder}
use bmc_secret_operator.Config.{Config}
use bmc_secret_operator.Backend.{Backend}
use bmc_secret_operator.Factory.{World, Deps, load_config, ensure_config}
use bmc_secret_operator.Factory.Getters.{
  create_backend, get_backend, get_backend_locked, get_path_builder, get_path_builder_locked,
  get_region_label_key, get_sync_label,
}

-- Once the call has returned a value, it returns it again and changes nothing.
pub record IsCached {S A : Type 0} (m : Eff S (Result A)) : Type 0 where
  pub again : (s : S) (a : A) → (m s).0 ≡ ok a → m (m s).1 ≡ (ok a, (m s).1)

module _ {E C : Type 0} (d : Deps E C) where
  ensure_config-some :
      (w : World E C) (c : Config) → w.factory.config ≡ some c → ensure_config d w ≡ (ok c, w)
  unfolding ensure_config
  ensure_config-some w c e = rw (e, ensure_config)

  pub ensure_config-config :
      (w : World E C) (c : Config)
      → (ensure_config d w).0 ≡ ok c
      → (ensure_config d w).1.factory.config ≡ some c
  unfolding ensure_config
  ensure_config-config w c h = elim (Option-cases w.factory.config) [
    | inr (cached, e) ↦ rw (e, ensure_config) (cc (rw (e, ensure_config) at h))
    | inl e ↦ elim (Result-cases (load_config d w).0) [
      | inr (failed, l) ↦ cc (rw (l, ensure_config) at (simp (e, ensure_config) at h))
      | inl (loaded, l) ↦
          simp (e, ensure_config)
            (rw (l, ensure_config) (cc (rw (l, ensure_config) at (simp (e, ensure_config) at h))))
    ]
  ]

  get_backend-some :
      (w : World E C) (b : Backend C) → w.factory.backend ≡ some b → get_backend d w ≡ (ok b, w)
  unfolding get_backend
  get_backend-some w b e = rw (e, get_backend)

  pub get_backend_locked-some :
      (w : World E C) (b : Backend C)
      → w.factory.backend ≡ some b
      → get_backend_locked d w ≡ (ok b, w)
  unfolding get_backend_locked
  get_backend_locked-some w b e = rw (e, get_backend_locked)

  pub get_backend_locked-backend :
      (w : World E C) (b : Backend C)
      → w.factory.backend ≡ none
      → (get_backend_locked d w).0 ≡ ok b
      → (get_backend_locked d w).1.factory.backend ≡ some b
  unfolding get_backend_locked
  get_backend_locked-backend w b e h = elim (Result-cases (load_config d w).0) [
    | inr (failed, l) ↦ cc (rw (l, get_backend_locked) at (simp (e, get_backend_locked) at h))
    | inl (config, l) ↦ elim (Result-cases (create_backend d config (load_config d w).1).0) [
      | inr (failed, m) ↦ cc (rw (l, m, get_backend_locked) at (simp (e, get_backend_locked) at h))
      | inl (created, m) ↦
          simp (e, get_backend_locked)
            (rw (l, m, get_backend_locked)
              (cc (rw (l, m, get_backend_locked) at (simp (e, get_backend_locked) at h))))
    ]
  ]

  get_backend-backend :
      (w : World E C) (b : Backend C)
      → (get_backend d w).0 ≡ ok b
      → (get_backend d w).1.factory.backend ≡ some b
  unfolding get_backend
  get_backend-backend w b h = elim (Option-cases w.factory.backend) [
    | inr (cached, e) ↦ rw (e, get_backend) (cc (rw (e, get_backend) at h))
    | inl e ↦ simp (e, get_backend) (get_backend_locked-backend w b e (simp (e, get_backend) at h))
  ]

  get_path_builder-some :
      (w : World E C) (pb : PathBuilder)
      → w.factory.path_builder ≡ some pb
      → get_path_builder d w ≡ (ok pb, w)
  unfolding get_path_builder
  get_path_builder-some w pb e = rw (e, get_path_builder)

  get_path_builder_locked-path_builder :
      (w : World E C) (pb : PathBuilder)
      → w.factory.path_builder ≡ none
      → (get_path_builder_locked d w).0 ≡ ok pb
      → (get_path_builder_locked d w).1.factory.path_builder ≡ some pb
  unfolding get_path_builder_locked
  get_path_builder_locked-path_builder w pb e h = elim (Result-cases (ensure_config d w).0) [
    | inr (failed, l) ↦
        cc (rw (l, get_path_builder_locked) at (simp (e, get_path_builder_locked) at h))
    | inl (config, l) ↦ elim (Result-cases (new_path_builder d.parse config.path_template)) [
      | inr (failed, m) ↦
          cc (rw (l, m, get_path_builder_locked) at (simp (e, get_path_builder_locked) at h))
      | inl (created, m) ↦
          simp (e, get_path_builder_locked)
            (rw (l, m, get_path_builder_locked)
              (cc (rw (l, m, get_path_builder_locked) at (simp (e, get_path_builder_locked) at h))))
    ]
  ]

  get_path_builder-path_builder :
      (w : World E C) (pb : PathBuilder)
      → (get_path_builder d w).0 ≡ ok pb
      → (get_path_builder d w).1.factory.path_builder ≡ some pb
  unfolding get_path_builder
  get_path_builder-path_builder w pb h = elim (Option-cases w.factory.path_builder) [
    | inr (cached, e) ↦ rw (e, get_path_builder) (cc (rw (e, get_path_builder) at h))
    | inl e ↦
        simp (e, get_path_builder)
          (get_path_builder_locked-path_builder w pb e (simp (e, get_path_builder) at h))
  ]

  get_region_label_key-IsCached : IsCached (get_region_label_key d)
  unfolding get_region_label_key
  get_region_label_key-IsCached = record {
    again = λ w key h. elim (Result-cases (ensure_config d w).0) [
      | inr (failed, l) ↦ cc (rw (l, get_region_label_key) at h)
      | inl (config, l) ↦
          let same =
            ensure_config-some (ensure_config d w).1 config (ensure_config-config w config l) in
          rw (l, get_region_label_key)
            (rw (same, get_region_label_key) (cc (rw (l, get_region_label_key) at h)))
    ];
  }

  get_sync_label-IsCached : IsCached (get_sync_label d)
  unfolding get_sync_label
  get_sync_label-IsCached = record {
    again = λ w key h. elim (Result-cases (ensure_config d w).0) [
      | inr (failed, l) ↦ cc (rw (l, get_sync_label) at h)
      | inl (config, l) ↦
          let same =
            ensure_config-some (ensure_config d w).1 config (ensure_config-config w config l) in
          rw (l, get_sync_label) (rw (same, get_sync_label) (cc (rw (l, get_sync_label) at h)))
    ];
  }

  -- Each of the four getters that has returned a value returns the same value when it is called
  -- again, changes nothing, and makes no call to the cluster or to Vault.
  pub getters-IsCached :
      IsCached (get_backend d)
      × IsCached (get_path_builder d)
      × IsCached (get_region_label_key d)
      × IsCached (get_sync_label d)
  getters-IsCached = (
    record { again = λ w b h. get_backend-some _ b (get_backend-backend w b h) },
    record { again = λ w pb h. get_path_builder-some _ pb (get_path_builder-path_builder w pb h) },
    get_region_label_key-IsCached,
    get_sync_label-IsCached,
  )
