-- ===== src/Config.antt =====
-- internal/secretbackend/config.go
pub mod Agreement
use bmc_secret_operator.Base.{String, ◌<>◌, Bool, false, Option, none, some, ◌==◌}
use bmc_secret_operator.Base.{Result, ok, err, errorf, if◌then◌else◌}
use bmc_secret_operator.Api.Config.{
  SecretBackendConfig, VaultConfig, KubernetesAuthConfig, OpenBaoConfig,
}
use bmc_secret_operator.PathBuilder.{default_template}

pub record VaultConfigInternal : Type 0 where
  pub address : String
  pub auth_method : String
  pub kubernetes_auth_role : String
  pub kubernetes_auth_path : String
  pub token : String
  pub mount_path : String
  pub skip_verify : Bool
  pub ca_cert : String

pub record OpenBaoConfigInternal : Type 0 where
  pub address : String
  pub auth_method : String

pub record Config : Type 0 where
  pub backend : String
  pub vault_config : Option VaultConfigInternal
  pub open_bao_config : Option OpenBaoConfigInternal
  pub path_template : String
  pub region_label_key : String
  pub sync_label : String

abbrev pub default_backend_type : String
default_backend_type = "vault"

-- `if x == "" { x = default }`
abbrev pub or_default : String → String → String
or_default x default = if x == "" then default else x

abbrev kubernetes_auth_role : Option KubernetesAuthConfig → String
kubernetes_auth_role none = ""
kubernetes_auth_role (some k) = k.role

abbrev kubernetes_auth_path : Option KubernetesAuthConfig → String
kubernetes_auth_path none = ""
kubernetes_auth_path (some k) = or_default k.path "kubernetes"

unfoldable pub load_vault_config : VaultConfig → VaultConfigInternal
load_vault_config cfg = record {
  address = cfg.address;
  auth_method = or_default cfg.auth_method "kubernetes";
  kubernetes_auth_role = kubernetes_auth_role cfg.kubernetes_auth;
  kubernetes_auth_path = kubernetes_auth_path cfg.kubernetes_auth;
  token = "";
  mount_path = or_default cfg.mount_path "secret";
  skip_verify = elim cfg.tls_config [ none ↦ false | some tls ↦ tls.skip_verify ];
  ca_cert = elim cfg.tls_config [ none ↦ "" | some tls ↦ tls.ca_cert ];
}

abbrev load_open_bao_config : Option OpenBaoConfig → Option OpenBaoConfigInternal
load_open_bao_config none = none
load_open_bao_config (some c) = some (record { address = c.address; auth_method = c.auth_method })

unfoldable pub load_config_from_crd : Option SecretBackendConfig → Result Config
unfolding load_vault_config
load_config_from_crd none = err (errorf "SecretBackendConfig is nil")
load_config_from_crd (some crd) = ok (record {
  backend = crd.spec.backend;
  vault_config = elim crd.spec.vault_config [
    | none ↦ none
    | some cfg ↦ some (load_vault_config cfg)
  ];
  open_bao_config = load_open_bao_config crd.spec.open_bao_config;
  path_template = or_default crd.spec.path_template default_template;
  region_label_key = or_default crd.spec.region_label_key "region";
  sync_label = crd.spec.sync_label;
})

-- `os.Getenv`, which gives "" for a variable that is not set, is an argument.
abbrev pub Environment : Type 0
Environment = String → String

unfoldable pub get_env_or_default : Environment → String → String → String
get_env_or_default getenv key default_value =
    let value = getenv key in if value == "" then default_value else value

unfoldable pub env_vault_config : Environment → VaultConfigInternal
unfolding get_env_or_default
env_vault_config getenv = record {
  address = getenv "VAULT_ADDR";
  auth_method = get_env_or_default getenv "VAULT_AUTH_METHOD" "kubernetes";
  kubernetes_auth_role = getenv "VAULT_ROLE";
  kubernetes_auth_path = get_env_or_default getenv "VAULT_KUBERNETES_PATH" "kubernetes";
  token = getenv "VAULT_TOKEN";
  mount_path = get_env_or_default getenv "VAULT_MOUNT_PATH" "secret";
  skip_verify = getenv "VAULT_SKIP_VERIFY" == "true";
  ca_cert = "";
}

unfoldable pub env_config : Environment → String → Config
unfolding env_vault_config
env_config getenv backend = record {
  backend = backend;
  vault_config = some (env_vault_config getenv);
  open_bao_config = none;
  path_template = get_env_or_default getenv "PATH_TEMPLATE" default_template;
  region_label_key = get_env_or_default getenv "REGION_LABEL_KEY" "region";
  sync_label = getenv "SYNC_LABEL";
}

unfoldable pub load_config_from_env : Environment → Result Config
unfolding env_config
load_config_from_env getenv =
    let backend = or_default (getenv "SECRET_BACKEND_TYPE") default_backend_type in
    if backend == "vault"
    then if getenv "VAULT_ADDR" == ""
      then err (errorf "VAULT_ADDR environment variable is required")
      else ok (env_config getenv backend)
    else if backend == "openbao"
    then err (errorf "OpenBao backend not yet implemented")
    else err (errorf ("unsupported backend type: " <> backend))
