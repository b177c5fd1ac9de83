-- ===== src/Tests/Server.antt =====
-- A Vault server that keeps its secrets in a map, and a factory that talks to it.
use bmc_secret_operator.Base.{String, ◌<>◌, true, none, some, [], ◌∷◌, ok, err, errorf}
use bmc_secret_operator.Base.Effect.{pure}
use bmc_secret_operator.Base.Dict.{Dict, lookup, insert, erase}
use bmc_secret_operator.Api.Config.{SecretBackendConfig, VaultConfig}
use bmc_secret_operator.PathBuilder.{text}
use bmc_secret_operator.Interface.{SecretData}
use bmc_secret_operator.Vault.Client.{VaultApi}
use bmc_secret_operator.Factory.{Deps, World, new_backend_factory}

abbrev pub Contents : Type 0
Contents = Dict SecretData

-- A client is the address it was made with; both engines keep their secrets under the full path.
abbrev pub server : VaultApi Contents String
server = record {
  append_certs_from_pem = λ pem. true;
  new_client = λ address skip_verify pool. pure (ok address);
  set_token = λ client token. pure tt;
  lookup_self = λ client. pure (ok tt);
  list_mounts = λ client.
      pure (ok (("secret/", record { type = "kv"; options = some (("version", "2") ∷ []) }) ∷ []));
  kv2_put = λ client mount path content s. (ok tt, insert (mount <> "/data/" <> path) content s);
  kv2_get = λ client mount path s. (
    elim (lookup (mount <> "/data/" <> path) s) [
      | none ↦ err (errorf "secret not found")
      | some content ↦ ok (some (record { payload = some content }))
    ],
    s,
  );
  kv2_delete_metadata = λ client mount path s. (ok tt, erase (mount <> "/data/" <> path) s);
  logical_write = λ client path content s. (
    ok (some (record { payload = none; auth = some (record { client_token = "token" }) })),
    insert path content s,
  );
  logical_read = λ client path s. (
    elim (lookup path s) [
      | none ↦ ok none
      | some content ↦ ok (some (record { payload = some content; auth = none }))
    ],
    s,
  );
  logical_delete = λ client path s. (ok none, erase path s);
  read_file = λ name. pure (ok "jwt");
  now = pure 7;
}

abbrev pub vault_config : VaultConfig
vault_config = record {
  address = "https://vault";
  auth_method = "token";
  kubernetes_auth = none;
  token_auth = some (record {
    secret_ref = record { name = "vault-token"; namespace = "default"; key = "token" };
  });
  mount_path = "";
  tls_config = none;
  secret_engines = [];
}

abbrev pub resource : SecretBackendConfig
resource = record {
  name = "default-backend-config";
  spec = record {
    backend = "vault";
    vault_config = some (record vault_config { auth_method = "kubernetes" });
    open_bao_config = none;
    path_template = "";
    region_label_key = "";
    sync_label = "sync";
  };
}

abbrev pub deps : Deps Contents String
deps = record {
  get_config = λ name. pure (ok resource);
  getenv = λ name. "";
  vault_api = server;
  parse = λ template. ok (text template ∷ []);
  collector = none;
}

abbrev pub world : World Contents String
world = record { factory = new_backend_factory; outside = [] }
