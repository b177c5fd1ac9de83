-- ===== src/Api/Config.antt =====
-- The SecretBackendConfig resource: api/v1alpha1/secretbackendconfig_types.go.
use bmc_secret_operator.Base.{Bool, String, Option, List}

pub record SecretEngineConfig : Type 0 where
  pub name : String
  pub mount_path : String
  pub path_template : String
  pub sync_label : String

pub record KubernetesAuthConfig : Type 0 where
  pub role : String
  pub path : String

pub record SecretReference : Type 0 where
  pub name : String
  pub namespace : String
  pub key : String

pub record TokenAuthConfig : Type 0 where
  pub secret_ref : SecretReference

pub record TlsConfig : Type 0 where
  pub skip_verify : Bool
  pub ca_cert : String

pub record VaultConfig : Type 0 where
  pub address : String
  pub auth_method : String
  pub kubernetes_auth : Option KubernetesAuthConfig
  pub token_auth : Option TokenAuthConfig
  pub mount_path : String
  pub tls_config : Option TlsConfig
  pub secret_engines : List SecretEngineConfig

pub record OpenBaoConfig : Type 0 where
  pub address : String
  pub auth_method : String

pub record SecretBackendConfigSpec : Type 0 where
  pub backend : String
  pub vault_config : Option VaultConfig
  pub open_bao_config : Option OpenBaoConfig
  pub path_template : String
  pub region_label_key : String
  pub sync_label : String

pub record SecretBackendConfig : Type 0 where
  pub name : String
  pub spec : SecretBackendConfigSpec
