-- ===== src/Tests/Factory.antt =====
-- The factory's theorems at work on the server of `Server`.
use bmc_secret_operator.Base.{◌≡◌, ◌≢◌, refl, String, true, none, [], ok}
use bmc_secret_operator.Config.{or_default, load_vault_config}
use bmc_secret_operator.Vault.{VaultBackend}
use bmc_secret_operator.Vault.New.{new_vault_backend}
use bmc_secret_operator.Factory.{World}
use bmc_secret_operator.Factory.Getters.{
  get_backend, get_path_builder, get_region_label_key, get_sync_label, vault_config,
}
use bmc_secret_operator.Factory.Release.{invalidate_cache}
use bmc_secret_operator.Factory.Caching.{IsCached, getters-IsCached}
use bmc_secret_operator.Factory.Invalidation.{invalidate_cache-reloads}
use bmc_secret_operator.Factory.Token.{new_vault_backend-token}
use bmc_secret_operator.Tests.Server.{
  Contents, server, vault_config as token_config, resource, deps, world,
}

getters-IsCached_example :
    IsCached (get_backend deps)
    × IsCached (get_path_builder deps)
    × IsCached (get_region_label_key deps)
    × IsCached (get_sync_label deps)
getters-IsCached_example = getters-IsCached deps

abbrev used : World Contents String
used = (get_region_label_key deps world).1

invalidate_cache-reloads_example :
    let w' = (invalidate_cache deps used).1 in
    ((get_region_label_key deps w').0 ≡ ok (or_default "" "region"))
    × ((get_sync_label deps w').0 ≡ ok "sync")
invalidate_cache-reloads_example = invalidate_cache-reloads deps used resource refl

abbrev client : VaultBackend String
client = record { client = "https://vault"; mount_path = "secret"; is_kv_v2 = true }

new_vault_backend-token_example :
    (new_vault_backend server none (vault_config deps (load_vault_config token_config)) []).0
    ≢ ok client
new_vault_backend-token_example = new_vault_backend-token deps token_config refl [] client
