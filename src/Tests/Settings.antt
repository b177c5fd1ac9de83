-- ===== src/Tests/Settings.antt =====
-- A configuration from the environment.
use bmc_secret_operator.Base.{◌≡◌, ◌≢◌, refl, some, ok, ◌==◌, if◌then◌else◌}
use bmc_secret_operator.Config.{Environment, env_config, load_config_from_crd, load_config_from_env}
use bmc_secret_operator.Config.Agreement.{resource_of, without_token, load_config_from_env-from_crd}

abbrev environment : Environment
environment key =
    if key == "VAULT_ADDR" then "https://vault" else if key == "VAULT_TOKEN" then "token" else ""

load_config_from_env-from_crd_example :
    (load_config_from_crd (some (resource_of environment))
      ≡ ok (without_token (env_config environment "vault")))
    × ((env_config environment "vault").backend ≡ "vault")
    × (environment "VAULT_ADDR" ≢ "")
unfolding load_config_from_env env_config
load_config_from_env-from_crd_example =
    load_config_from_env-from_crd environment (env_config environment "vault") refl
