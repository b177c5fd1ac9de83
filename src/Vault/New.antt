-- ===== src/Vault/New.antt =====
-- `NewVaultBackend` and `detectKVVersion` of internal/secretbackend/vault/vault.go.
use bmc_secret_operator.Base.{String, ◌<>◌, Bool, true, false, ◌||◌, Option, none, some, ◌==◌}
use bmc_secret_operator.Base.{Result, ok, err, errorf, wrap, if◌then◌else◌}
use bmc_secret_operator.Base.Effect.{Eff, attempt, pure}
use bmc_secret_operator.Base.Dict.{lookup, find}
use bmc_secret_operator.Interface.{MetricsCollector}
use bmc_secret_operator.Vault.{Config, VaultBackend}
use bmc_secret_operator.Vault.Client.{VaultApi, Mount}
use bmc_secret_operator.Vault.Auth.{authenticate}

-- `mount.Options["version"]`: an explicit version wins, a mount without one goes by its type.
unfoldable pub mount_is_kv_v2 : Mount → Bool
mount_is_kv_v2 mount = elim (find "version" mount.options) [
  | some version ↦
      if version == "2"
      then true
      else if version == "1"
      then false
      else mount.type == "kv" || mount.type == "generic"
  | none ↦ mount.type == "kv" || mount.type == "generic"
]

module _ {S C : Type 0} (api : VaultApi S C) where
  unfoldable pub detect_kv_version : VaultBackend C → Eff S (Result (VaultBackend C))
  detect_kv_version v =
      attempt (api.list_mounts v.client) (λ e. pure (err (wrap "failed to list mounts" e)))
        λ mounts. elim (lookup (v.mount_path <> "/") mounts) [
          | none ↦ pure (err (errorf ("mount " <> v.mount_path <> " not found")))
          | some mount ↦ pure (ok (record v { is_kv_v2 = mount_is_kv_v2 mount }))
        ]

  -- The certificate pool: `none` is the system's, and a text that does not parse is refused.
  abbrev pub root_cas : String → Result (Option String)
  root_cas ca_cert =
      if ca_cert == ""
      then ok none
      else if api.append_certs_from_pem ca_cert
      then ok (some ca_cert)
      else err (errorf "failed to parse CA certificate")

  unfoldable pub new_vault_backend :
      Option (MetricsCollector S) → Config → Eff S (Result (VaultBackend C))
  new_vault_backend collector config =
      attempt (pure (root_cas config.ca_cert)) (λ e. pure (err e))
        λ pool.
          attempt (api.new_client config.address config.skip_verify pool)
            (λ e. pure (err (wrap "failed to create vault client" e)))
            λ client.
              let backend : VaultBackend C = record {
                client = client;
                mount_path = config.mount_path;
                is_kv_v2 = true;
              } in
              attempt (authenticate api collector backend config)
                (λ e. pure (err (wrap "failed to authenticate with vault" e)))
                λ _.
                  attempt (detect_kv_version backend)
                    (λ e. pure (err (wrap "failed to detect KV version" e)))
                    λ detected. pure (ok detected)
