-- ===== src/Main.antt =====
-- cmd/main.go. The flags are taken as `flag.Parse` leaves them; what the program makes of them is in
-- Options. controller-runtime's manager is a parameter.
pub mod Options
pub mod Startup
use bmc_secret_operator.Base.{ℕ, String, Result, ok, err}
use bmc_secret_operator.Base.Effect.{Eff, ◌>>=◌, ◌>>◌, attempt, ignore, pure}
use bmc_secret_operator.Interface.Manager.{Controller}
use bmc_secret_operator.Factory.{World, Deps, factory, set_factory, new_backend_factory}
use bmc_secret_operator.Factory.Getters.{get_sync_label}
use bmc_secret_operator.Factory.Release.{close}
use bmc_secret_operator.Reconciler.Setup
use bmc_secret_operator.ConfigReconciler
use Options.{Flags, ManagerOptions, manager_options}

-- The calls of `metrics.NewCollector` (Metrics.Collector), `ctrl.NewManager` and the manager.
-- `complete` registers a controller; `start` runs the controllers until the manager stops.
pub record Manager (S : Type 0) : Type 0 where
  pub new_collector : Eff S (Unit {0})
  pub new_manager : ManagerOptions → Eff S (Result (Unit {0}))
  pub complete : Controller → Eff S (Result (Unit {0}))
  pub add_healthz_check : String → Eff S (Result (Unit {0}))
  pub add_readyz_check : String → Eff S (Result (Unit {0}))
  pub start : Eff S (Result (Unit {0}))

-- How the process ends: `main` returns, or `os.Exit(code)` runs.
pub data Exit : Type 0 where
  returned : Exit
  exited : ℕ → Exit

module _ {E C : Type 0} (d : Deps E C) (m : Manager (World E C)) where
  -- `os.Exit` runs no deferred call.
  abbrev exit_1 : Eff (World E C) Exit
  exit_1 = pure (exited 1)

  -- From `NewBackendFactory` on, whose deferred `Close` runs when `main` returns.
  unfoldable pub run : Eff (World E C) Exit
  run = do
    set_factory new_backend_factory
    attempt (Setup.setup_with_manager (get_sync_label d) m.complete) (λ e. exit_1)
        λ _.
          attempt (ConfigReconciler.setup_with_manager m.complete) (λ e. exit_1)
            λ _.
              attempt (m.add_healthz_check "healthz") (λ e. exit_1)
                λ _.
                  attempt (m.add_readyz_check "readyz") (λ e. exit_1)
                    λ _. attempt m.start (λ e. exit_1) λ _. do ignore (close d); pure returned

  unfoldable pub main : Flags → Eff (World E C) Exit
  main flags =
      m.new_collector >> attempt (m.new_manager (manager_options flags)) (λ e. exit_1) (λ _. run)
