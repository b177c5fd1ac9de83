-- ===== src/Factory/Token.antt =====
-- Token authentication that is configured by a SecretBackendConfig.
use bmc_secret_operator.Base.{◌≡◌, ◌≢◌, refl}
use bmc_secret_operator.Base.{ok, err, errorf, inl, inr, Result-cases}
use bmc_secret_operator.Api.Config.{VaultConfig}
use bmc_secret_operator.Config.{load_vault_config}
use bmc_secret_operator.Vault.{VaultBackend}
use bmc_secret_operator.Vault.Auth.{authenticate, authenticate_token}
use bmc_secret_operator.Vault.New.{root_cas, new_vault_backend}
use bmc_secret_operator.Factory.{Deps}
use bmc_secret_operator.Factory.Getters.{vault_config}

module _ {E C : Type 0} (d : Deps E C) (cfg : VaultConfig) (h : cfg.auth_method ≡ "token") where
  authenticate-token :
      (v : VaultBackend C) (e : E)
      → (authenticate d.vault_api d.collector v (vault_config d (load_vault_config cfg)) e).0
        ≡ err (errorf "token is required for token authentication")
  unfolding authenticate authenticate_token load_vault_config
  authenticate-token v e = rw (h, authenticate) refl

  -- A Vault configuration of the resource with the method token never gives a backend, whatever
  -- secret its tokenAuth names: the certificates, the client or the authentication fails.
  pub new_vault_backend-token :
      (e : E) (b : VaultBackend C)
      → (new_vault_backend d.vault_api d.collector (vault_config d (load_vault_config cfg)) e).0
        ≢ ok b
  unfolding new_vault_backend
  new_vault_backend-token e b g =
      let config = vault_config d (load_vault_config cfg) in
      elim (Result-cases (root_cas d.vault_api config.ca_cert)) [
        | inr (failed, x) ↦ cc (rw (x, new_vault_backend) at g)
        | inl (pool, x) ↦
            let g' = rw (x, new_vault_backend) at g in
            elim (Result-cases
              (d.vault_api.new_client config.address config.skip_verify pool e).0) [
                | inr (failed, y) ↦ cc (rw (y, new_vault_backend) at g')
                | inl (client, y) ↦ cc (
                    rw (authenticate-token _ _, new_vault_backend) at
                      (rw (y, new_vault_backend) at g'))
              ]
      ]
