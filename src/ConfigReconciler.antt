-- ===== src/ConfigReconciler.antt =====
-- internal/controller/secretbackendconfig_controller.go
use bmc_secret_operator.Base.{String, Option, none, some, Error, Result, if◌then◌else◌}
use bmc_secret_operator.Base.Effect.{Eff, ◌>>◌, attempt, pure}
use bmc_secret_operator.Api.Config.{SecretBackendConfig}
use bmc_secret_operator.Interface.Manager.{Controller}
use bmc_secret_operator.Interface.{BackendFactoryInterface}

pub record SecretBackendConfigReconciler (S B : Type 0) : Type 0 where
  pub get_config : String → Eff S (Result SecretBackendConfig)
  pub event : String → String → String → String → Eff S (Unit {0})
  pub backend_factory : BackendFactoryInterface S B

module _ {S B : Type 0} (r : SecretBackendConfigReconciler S B) where
  -- The result is always the empty `ctrl.Result`; what is returned here is the error.
  unfoldable pub reconcile : String → Eff S (Option Error)
  reconcile name =
      attempt (r.get_config name)
        (λ e.
          if e.not_found
          then attempt r.backend_factory.invalidate_cache (λ e'. pure (some e')) (λ _. pure none)
          else pure (some e))
        λ config.
          attempt r.backend_factory.invalidate_cache (λ e'. pure (some e'))
            λ _. do
              r.event config.name "Normal" "ConfigReloaded"
                  "Configuration cache invalidated, new settings will be applied on next sync"
              pure none

-- `SetupWithManager`: a controller with no filter and no other watch.
unfoldable pub setup_with_manager :
    {S : Type 0} → (Controller → Eff S (Result (Unit {0}))) → Eff S (Result (Unit {0}))
setup_with_manager complete =
    complete
      (record { reconciled = "SecretBackendConfig"; event_filter = none; watched_bmcs = none })
