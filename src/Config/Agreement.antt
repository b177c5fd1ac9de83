-- ===== src/Config/Agreement.antt =====
-- The two loaders of the configuration, side by side.
use bmc_secret_operator.Base.{◌≡◌, ◌≢◌, refl, ◌∙◌, sym, ap, none, some, [], ◌==◌}
use bmc_secret_operator.Base.{arith, ok, inl, inr, Bool-cases, eq_iff}
use bmc_secret_operator.Api.Config.{SecretBackendConfig}
use bmc_secret_operator.Config.{
  Config, Environment, or_default, default_backend_type, get_env_or_default, env_vault_config,
  env_config, load_vault_config, load_config_from_crd, load_config_from_env,
}

-- The resource that says what the environment says.
abbrev pub resource_of : Environment → SecretBackendConfig
resource_of getenv = record {
  name = "default-backend-config";
  spec = record {
    backend = or_default (getenv "SECRET_BACKEND_TYPE") default_backend_type;
    vault_config = some (record {
      address = getenv "VAULT_ADDR";
      auth_method = getenv "VAULT_AUTH_METHOD";
      kubernetes_auth =
          some (record { role = getenv "VAULT_ROLE"; path = getenv "VAULT_KUBERNETES_PATH" });
      token_auth = none;
      mount_path = getenv "VAULT_MOUNT_PATH";
      tls_config =
          some (record { skip_verify = getenv "VAULT_SKIP_VERIFY" == "true"; ca_cert = "" });
      secret_engines = [];
    });
    open_bao_config = none;
    path_template = getenv "PATH_TEMPLATE";
    region_label_key = getenv "REGION_LABEL_KEY";
    sync_label = getenv "SYNC_LABEL";
  };
}

abbrev pub without_token : Config → Config
without_token config = record config {
  vault_config = elim config.vault_config [ none ↦ none | some v ↦ some (record v { token = "" }) ];
}

module _ (getenv : Environment) where
  resource_of-env :
      load_config_from_crd (some (resource_of getenv))
      ≡ ok (
          without_token
            (env_config getenv (or_default (getenv "SECRET_BACKEND_TYPE") default_backend_type)))
  unfolding load_config_from_crd load_vault_config env_config env_vault_config get_env_or_default
  resource_of-env = refl

  -- What the environment's loader returns.
  load_config_from_env-ok :
      (config : Config)
      → load_config_from_env getenv ≡ ok config
      → (or_default (getenv "SECRET_BACKEND_TYPE") default_backend_type ≡ "vault")
        × (getenv "VAULT_ADDR" ≢ "")
        × (config
            ≡ env_config getenv (or_default (getenv "SECRET_BACKEND_TYPE") default_backend_type))
  unfolding load_config_from_env
  load_config_from_env-ok config h =
      let backend = or_default (getenv "SECRET_BACKEND_TYPE") default_backend_type in
      elim (Bool-cases (backend == "vault")) [
        | inr other ↦ elim (Bool-cases (backend == "openbao")) [
          | inl bao ↦ cc (rw (other, bao, load_config_from_env) at h)
          | inr neither ↦ cc (rw (other, neither, load_config_from_env) at h)
        ]
        | inl vault ↦ elim (Bool-cases (getenv "VAULT_ADDR" == "")) [
          | inl empty ↦ cc (rw (vault, empty, load_config_from_env) at h)
          | inr there ↦
              let same : ok (env_config getenv backend) ≡ ok config =
                rw (vault, there, load_config_from_env) at h in
              (
                ground (arith, eq_iff backend "vault"),
                ground (arith, eq_iff (getenv "VAULT_ADDR") ""),
                cc same,
              )
        ]
      ]

  -- When the environment gives a configuration, it is for Vault, with an address, and a resource
  -- that says what the environment says gives the same configuration, defaults included, but for
  -- the token, which only the environment gives.
  pub load_config_from_env-from_crd :
      (config : Config)
      → load_config_from_env getenv ≡ ok config
      → (load_config_from_crd (some (resource_of getenv)) ≡ ok (without_token config))
        × (config.backend ≡ "vault")
        × (getenv "VAULT_ADDR" ≢ "")
  unfolding env_config
  load_config_from_env-from_crd config h =
      let (vault, there, same) = load_config_from_env-ok config h in
      (
        resource_of-env ∙ ap (λ c. ok (without_token c)) (sym same),
        ap (λ (c : Config). c.backend) same ∙ vault,
        there,
      )

  -- The sync label of a configuration from the environment.
  pub load_config_from_env-sync_label :
      (config : Config)
      → load_config_from_env getenv ≡ ok config
      → config.sync_label ≡ getenv "SYNC_LABEL"
  unfolding env_config
  load_config_from_env-sync_label config h =
      let (vault, there, same) = load_config_from_env-ok config h in
      ap (λ (c : Config). c.sync_label) same
