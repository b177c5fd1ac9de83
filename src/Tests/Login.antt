-- ===== src/Tests/Login.antt =====
-- A Vault backend made with a token.
use bmc_secret_operator.Base.{
  ◌≡◌, ◌≢◌, refl, String, true, false, none, some, [], ◌∷◌, ok, err, errorf,
}
use bmc_secret_operator.Base.Effect.{pure}
use bmc_secret_operator.Base.Dict.{lookup}
use bmc_secret_operator.Vault.{Config, VaultBackend}
use bmc_secret_operator.Vault.Auth.{authenticate, authenticate_token}
use bmc_secret_operator.Vault.Client.{VaultApi}
use bmc_secret_operator.Vault.Login.{IsTokenKeeper}
use bmc_secret_operator.Vault.New.{new_vault_backend, detect_kv_version, mount_is_kv_v2}
use bmc_secret_operator.Vault.Ready.{HasVersion, new_vault_backend-HasVersion}
use bmc_secret_operator.Tests.World.{none≢some}

-- There is one client, and the state is its token; the mount is of version 1.
abbrev desk : VaultApi String (Unit {0})
desk = record {
  append_certs_from_pem = λ pem. true;
  new_client = λ address skip_verify pool. pure (ok tt);
  set_token = λ client token s. (tt, token);
  lookup_self = λ client. pure (ok tt);
  list_mounts = λ client.
      pure (ok (("secret/", record { type = "kv"; options = some (("version", "1") ∷ []) }) ∷ []));
  kv2_put = λ client mount path content. pure (ok tt);
  kv2_get = λ client mount path. pure (ok none);
  kv2_delete_metadata = λ client mount path. pure (ok tt);
  logical_write = λ client path content. pure (ok none);
  logical_read = λ client path. pure (ok none);
  logical_delete = λ client path. pure (ok none);
  read_file = λ name. pure (err (errorf "no such file"));
  now = pure 7;
}

abbrev token : String → Unit {0} → String
token s client = s

desk-IsTokenKeeper : IsTokenKeeper desk none token
desk-IsTokenKeeper = record {
  set_token_value = λ c t s. refl;
  lookup_self_keeps = λ c s. refl;
  list_mounts_keeps = λ c s. refl;
  now_keeps = λ c s. refl;
  record_auth_keeps = λ m e. absurd (none≢some m e);
}

abbrev config : Config
config = record {
  address = "https://vault";
  auth_method = "token";
  kubernetes_auth_role = "";
  kubernetes_auth_path = "";
  token = "s.1";
  mount_path = "secret";
  skip_verify = false;
  ca_cert = "";
}

abbrev made : VaultBackend (Unit {0})
made = record { client = tt; mount_path = "secret"; is_kv_v2 = false }

new_vault_backend-HasVersion_example :
    (token (new_vault_backend desk none config "").1 tt ≢ "")
    × (made.mount_path ≡ config.mount_path)
    × HasVersion desk made
unfolding new_vault_backend authenticate authenticate_token detect_kv_version mount_is_kv_v2 lookup
new_vault_backend-HasVersion_example =
    new_vault_backend-HasVersion desk none token desk-IsTokenKeeper config "" made refl
