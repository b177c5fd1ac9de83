-- ===== src/Factory/Invalidation.antt =====
-- What `InvalidateCache` makes the factory forget, and what the next calls see.
use bmc_secret_operator.Base.{◌≡◌, refl, ap, Option, none, some, List, [], ◌∷◌}
use bmc_secret_operator.Base.{ok, inl, inr, Option-cases}
use bmc_secret_operator.Api.Config.{SecretBackendConfig}
use bmc_secret_operator.Interface.{EngineBackend}
use bmc_secret_operator.Config.{or_default, load_config_from_crd}
use bmc_secret_operator.Backend
use bmc_secret_operator.Backend.{Backend, vault, open_bao, instrumented, instrumented_with_engine}
use bmc_secret_operator.Factory.{
  World, Deps, new_backend_factory, default_backend_config_name, outside, load_config,
  ensure_config,
}
use bmc_secret_operator.Factory.Getters.{get_region_label_key, get_sync_label}
use bmc_secret_operator.Factory.Release.{release_backend, close_engines, close, invalidate_cache}

module _ {E C : Type 0} (d : Deps E C) where
  close_always : (b : Backend C) (e : E) → Backend.close d.vault_api d.collector b e ≡ (ok tt, e)
  unfolding Backend.close
  close_always (vault v) e = refl
  close_always open_bao e = refl
  close_always (instrumented b t) e = close_always b e
  close_always (instrumented_with_engine b t n) e = close_always b e

  close_engines_always :
      (ebs : List (EngineBackend (Backend C))) (w : World E C) → close_engines d ebs w ≡ (ok tt, w)
  unfolding close_engines outside
  close_engines_always [] w = refl
  close_engines_always (eb ∷ rest) w =
      rw (close_always eb.backend w.outside, close_engines) (close_engines_always rest w)

  release_backend_always :
      (w : World E C)
      → release_backend d w ≡ (ok tt, record w { factory = record w.factory { backend = none } })
  unfolding release_backend outside
  release_backend_always w = elim (Option-cases w.factory.backend) [
    | inl e ↦
        simp (e, release_backend)
          (ap
            (λ (b : Option (Backend C)).
              (ok tt, record w { factory = record w.factory { backend = b } }))
            e)
    | inr (b, e) ↦ simp (e, release_backend) (rw (close_always b w.outside, release_backend) refl)
  ]

  pub close-backend :
      (w : World E C) → (close d w).1 ≡ record w { factory = record w.factory { backend = none } }
  unfolding close outside
  close-backend w = elim (Option-cases w.factory.backend) [
    | inl e ↦
        simp (e, close)
          (ap (λ (b : Option (Backend C)). record w { factory = record w.factory { backend = b } })
            e)
    | inr (b, e) ↦ simp (e, close) (rw (close_always b w.outside, close) refl)
  ]

  -- The invalidation always succeeds, makes no call outside, and leaves the factory as
  -- NewBackendFactory makes it, so the next getter reads the configuration anew.
  pub invalidate_cache_lem :
      (w : World E C) → invalidate_cache d w ≡ (ok tt, record w { factory = new_backend_factory })
  unfolding invalidate_cache
  invalidate_cache_lem w =
      rw (release_backend_always w, invalidate_cache)
        (rw (close_engines_always _ _, invalidate_cache) refl)

  load_config-crd :
      (w : World E C) (crd : SecretBackendConfig)
      → (d.get_config default_backend_config_name w.outside).0 ≡ ok crd
      → (load_config d w).0 ≡ load_config_from_crd (some crd)
  unfolding load_config outside load_config_from_crd
  load_config-crd w crd h = cc (h)

  ensure_config-fresh :
      (e : E) (crd : SecretBackendConfig)
      → (d.get_config default_backend_config_name e).0 ≡ ok crd
      → (ensure_config d (record { factory = new_backend_factory; outside = e })).0
        ≡ load_config_from_crd (some crd)
  unfolding ensure_config load_config_from_crd
  ensure_config-fresh e crd h =
      rw
        (
          load_config-crd (record { factory = new_backend_factory; outside = e }) crd h,
          ensure_config,
        )
        refl

  -- After an invalidation the getters answer by the resource as the cluster has it then: if it can
  -- be read, the region label key is the resource's, or region if it has none, and the sync label
  -- is the resource's, whatever was cached before.
  pub invalidate_cache-reloads :
      (w : World E C) (crd : SecretBackendConfig)
      → (d.get_config default_backend_config_name w.outside).0 ≡ ok crd
      → let w' = (invalidate_cache d w).1 in
        ((get_region_label_key d w').0 ≡ ok (or_default crd.spec.region_label_key "region"))
        × ((get_sync_label d w').0 ≡ ok crd.spec.sync_label)
  unfolding get_region_label_key get_sync_label load_config_from_crd
  invalidate_cache-reloads w crd h =
      let fresh = ensure_config-fresh w.outside crd h in
      rw (invalidate_cache_lem w)
        (rw (fresh, get_region_label_key) refl, rw (fresh, get_sync_label) refl)
