-- ===== src/Vault.antt =====
-- internal/secretbackend/vault: the backend over HashiCorp Vault.
pub mod Client
pub mod Auth
pub mod New
pub mod Failure
pub mod Store
pub mod RoundTrip
pub mod Mounted
pub mod Login
pub mod Ready
use bmc_secret_operator.Base.{String, ◌<>◌, Bool, true, false, Option, none, some}
use bmc_secret_operator.Base.{Error, Result, ok, err, errorf, wrap, if◌then◌else◌}
use bmc_secret_operator.Base.Effect.{Eff, ◌>>=◌, attempt, pure}
use bmc_secret_operator.Base.Text.{has_infix}
use bmc_secret_operator.Interface.{SecretData}
use Client.{VaultApi, KvSecret, Secret}

pub record Config : Type 0 where
  pub address : String
  pub auth_method : String
  pub kubernetes_auth_role : String
  pub kubernetes_auth_path : String
  pub token : String
  pub mount_path : String
  pub skip_verify : Bool
  pub ca_cert : String

-- The collector of the struct is an argument of the functions that read it.
pub record VaultBackend (C : Type 0) : Type 0 where
  pub client : C
  pub mount_path : String
  pub is_kv_v2 : Bool

unfoldable pub build_path : {C : Type 0} → VaultBackend C → String → String
build_path v path =
    if v.is_kv_v2 then v.mount_path <> "/data/" <> path else v.mount_path <> "/" <> path

abbrev pub not_found_at : String → Error
not_found_at full_path = errorf ("secret not found at " <> full_path)

-- `secret == nil || secret.Data == nil`
abbrev pub kv_payload : String → Option KvSecret → Result (Option SecretData)
kv_payload full_path none = err (not_found_at full_path)
kv_payload full_path (some secret) = elim secret.payload [
  | none ↦ err (not_found_at full_path)
  | some payload ↦ ok (some payload)
]

abbrev pub logical_payload : String → Option Secret → Result (Option SecretData)
logical_payload full_path none = err (not_found_at full_path)
logical_payload full_path (some secret) = elim secret.payload [
  | none ↦ err (not_found_at full_path)
  | some payload ↦ ok (some payload)
]

module _ {S C : Type 0} (api : VaultApi S C) where
  unfoldable pub write_secret : VaultBackend C → String → SecretData → Eff S (Result (Unit {0}))
  write_secret v path content =
      let full_path = build_path v path in
      let fail =
        λ (e : Error). pure (err (wrap ("failed to write secret to vault at " <> full_path) e)) in
      if v.is_kv_v2
      then attempt (api.kv2_put v.client v.mount_path path content) fail (λ _. pure (ok tt))
      else attempt (api.logical_write v.client full_path content) fail (λ _. pure (ok tt))

  unfoldable pub read_secret : VaultBackend C → String → Eff S (Result (Option SecretData))
  read_secret v path =
      let full_path = build_path v path in
      let fail =
        λ (e : Error). pure (err (wrap ("failed to read secret from vault at " <> full_path) e)) in
      if v.is_kv_v2
      then attempt (api.kv2_get v.client v.mount_path path) fail
          (λ secret. pure (kv_payload full_path secret))
      else attempt (api.logical_read v.client full_path) fail
          (λ secret. pure (logical_payload full_path secret))

  unfoldable pub delete_secret : VaultBackend C → String → Eff S (Result (Unit {0}))
  delete_secret v path =
      let full_path = build_path v path in
      let fail = λ (e : Error).
        pure (err (wrap ("failed to delete secret from vault at " <> full_path) e)) in
      if v.is_kv_v2
      then attempt (api.kv2_delete_metadata v.client v.mount_path path) fail (λ _. pure (ok tt))
      else attempt (api.logical_delete v.client full_path) fail (λ _. pure (ok tt))

  -- The text of the error decides between "absent" and "failed".
  unfoldable pub secret_exists : VaultBackend C → String → Eff S (Result Bool)
  secret_exists v path =
      attempt (read_secret v path)
        (λ e. if has_infix e.message "secret not found" then pure (ok false) else pure (err e))
        (λ _. pure (ok true))

  unfoldable pub close : VaultBackend C → Eff S (Result (Unit {0}))
  close v = pure (ok tt)
