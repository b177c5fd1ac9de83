-- ===== src/Main/Startup.antt =====
-- When the program of cmd/main.go starts its manager, what it reads before, and how it ends.
use bmc_secret_operator.Base.{◌≡◌, refl, none, some, ok, err, wrap, Error, inl, inr}
use bmc_secret_operator.Base.{Result, Result-cases}
use bmc_secret_operator.Interface.Manager.{Controller}
use bmc_secret_operator.Base.Effect.{Eff, attempt, ignore, ◌>>◌, pure}
use bmc_secret_operator.Config.{Config, load_config_from_env}
use bmc_secret_operator.Factory.{World, Deps, new_backend_factory, default_backend_config_name}
use bmc_secret_operator.Factory.{load_config, ensure_config, outside}
use bmc_secret_operator.Factory.Getters.{get_sync_label}
use bmc_secret_operator.Factory.Release.{close}
use bmc_secret_operator.Factory.Invalidation.{close-backend}
use bmc_secret_operator.Reconciler.Setup.{setup_with_manager, controller}
use bmc_secret_operator.ConfigReconciler
use bmc_secret_operator.Main.{Manager, Exit, returned, exited, run, main}
use bmc_secret_operator.Main.Options.{Flags, manager_options}

abbrev pub config_controller : Controller
config_controller = record {
  reconciled = "SecretBackendConfig";
  event_filter = none;
  watched_bmcs = none;
}

module _ {E C : Type 0} (d : Deps E C) where
  -- The world after one read of the resource.
  abbrev pub after_read : World E C → World E C
  after_read w = record w { outside = (d.get_config default_backend_config_name w.outside).1 }

  load_config-env :
      (w : World E C) (e : Error)
      → (d.get_config default_backend_config_name w.outside).0 ≡ err e
      → load_config d w ≡ (load_config_from_env d.getenv, after_read w)
  unfolding load_config outside
  load_config-env w e h = cc h

  ensure_config-unreadable :
      (w : World E C) (e e' : Error)
      → w.factory.config ≡ none
      → (d.get_config default_backend_config_name w.outside).0 ≡ err e
      → load_config_from_env d.getenv ≡ err e'
      → (ensure_config d w).0 ≡ err (wrap "failed to load configuration" e')
  unfolding ensure_config
  ensure_config-unreadable w e e' n h k =
      simp (n, ensure_config) (rw (load_config-env w e h, k, ensure_config) refl)

  module _ (m : Manager (World E C)) where
    run-unreadable :
        (other : Eff (World E C) (Result (Unit {0}))) (w : World E C) (e e' : Error)
        → (d.get_config default_backend_config_name w.outside).0 ≡ err e
        → load_config_from_env d.getenv ≡ err e'
        → ((run d m w).0 ≡ exited 1) × (run d (record m { start = other }) w ≡ run d m w)
    unfolding run setup_with_manager get_sync_label
    run-unreadable other w e e' h k =
        let read =
          ensure_config-unreadable (record w { factory = new_backend_factory }) e e' refl h k in
        (
          rw (read, run, setup_with_manager, get_sync_label) refl,
          rw (read, run, setup_with_manager, get_sync_label) refl,
        )

    -- If the resource cannot be read when the manager has been made, and the environment has no
    -- complete configuration, the program exits with code 1 and never starts the manager: any other
    -- function in place of Start gives the same run.
    pub main-unreadable :
        (other : Eff (World E C) (Result (Unit {0}))) (flags : Flags) (w : World E C) (e e' : Error)
        → (d.get_config default_backend_config_name
            (m.new_manager (manager_options flags) (m.new_collector w).1).1.outside).0
          ≡ err e
        → load_config_from_env d.getenv ≡ err e'
        → ((main d m flags w).0 ≡ exited 1)
          × (main d (record m { start = other }) flags w ≡ main d m flags w)
    unfolding main
    main-unreadable other flags w e e' h k =
        elim (Result-cases (m.new_manager (manager_options flags) (m.new_collector w).1).0) [
          | inr (failed, x) ↦ rw (x, main) (refl, refl)
          | inl (made, x) ↦ rw (x, main) (run-unreadable other _ e e' h k)
        ]

    -- `Complete` does the same for the two controllers that the environment asks for.
    pub record AgreesOnEnv (other : Controller → Eff (World E C) (Result (Unit {0}))) : Type 0 where
      pub agrees_on_secrets :
          other (controller (d.getenv "SYNC_LABEL"))
          ≡ m.complete (controller (d.getenv "SYNC_LABEL"))
      pub agrees_on_config : other config_controller ≡ m.complete config_controller

    module _ (other : Controller → Eff (World E C) (Result (Unit {0})))
        (agrees : AgreesOnEnv other) where
      -- The world with a configuration, after one read of the resource.
      abbrev loaded : World E C → Config → World E C
      loaded w c = record (after_read w) { factory = record w.factory { config = some c } }

    -- The manager has run to its end with no error, and then the factory has been closed.
    pub record IsClosed (w : World E C) : Type 0 where
      pub stopping : World E C
      pub stopped : (m.start stopping).0 ≡ ok tt
      pub closed : w ≡ record (m.start stopping).1 {
        factory = record (m.start stopping).1.factory { backend = none };
      }

    -- A step after which the program goes on only if it succeeded.
    attempt-IsClosed :
        {A : Type 0} (k : Eff (World E C) (Result A)) {rest : A → Eff (World E C) Exit}
        → ((a : A) (w : World E C) → (rest a w).0 ≡ returned → IsClosed (rest a w).1)
        → (w : World E C) → (attempt k (λ e. pure (exited 1)) rest w).0 ≡ returned
        → IsClosed (attempt k (λ e. pure (exited 1)) rest w).1
    attempt-IsClosed k go w h = elim (Result-cases (k w).0) [
      | inr (e, x) ↦ cc
      | inl (a, x) ↦ rw x (go a (k w).1 (rw x at h))
    ]

    start-IsClosed :
        (w : World E C)
        → (attempt m.start (λ e. pure (exited 1)) (λ _. ignore (close d) >> pure returned) w).0
          ≡ returned
        → IsClosed
            (attempt m.start (λ e. pure (exited 1)) (λ _. ignore (close d) >> pure returned) w).1
    start-IsClosed w h = elim (Result-cases (m.start w).0) [
      | inr (e, x) ↦ cc
      | inl (a, x) ↦ record {
        stopping = w;
        stopped = x;
        closed = rw x (close-backend d (m.start w).1);
      }
    ]

    run-IsClosed : (w : World E C) → (run d m w).0 ≡ returned → IsClosed (run d m w).1
    unfolding run
    run-IsClosed w =
        attempt-IsClosed (setup_with_manager (get_sync_label d) m.complete)
          (λ _. attempt-IsClosed (ConfigReconciler.setup_with_manager m.complete) λ _.
            attempt-IsClosed (m.add_healthz_check "healthz")
              λ _. attempt-IsClosed (m.add_readyz_check "readyz") (λ _. start-IsClosed))
          _

    -- If main returns, the manager has run to its end with no error, and the factory that it left
    -- has been closed: it holds no backend, and is otherwise as the manager left it.
    pub main-returned :
        (flags : Flags) (w : World E C)
        → (main d m flags w).0 ≡ returned
        → IsClosed (main d m flags w).1
    unfolding main
    main-returned flags w =
        attempt-IsClosed (m.new_manager (manager_options flags)) (λ _. run-IsClosed)
          (m.new_collector w).1
