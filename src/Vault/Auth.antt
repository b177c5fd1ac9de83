-- ===== src/Vault/Auth.antt =====
-- internal/secretbackend/vault/auth.go
use bmc_secret_operator.Base.{ℕ, ◌-◌, String, ◌<>◌, ◌∷◌, [], Option, none, some, ◌==◌}
use bmc_secret_operator.Base.{Error, Result, ok, err, errorf, wrap, if◌then◌else◌}
use bmc_secret_operator.Base.Effect.{Eff, ◌>>=◌, ◌>>◌, attempt, pure}
use bmc_secret_operator.Interface.{MetricsCollector, str}
use bmc_secret_operator.Vault.{Config, VaultBackend}
use bmc_secret_operator.Vault.Client.{VaultApi, Secret}

abbrev pub service_account_token_path : String
service_account_token_path = "/var/run/secrets/kubernetes.io/serviceaccount/token"

-- `secret == nil || secret.Auth == nil || secret.Auth.ClientToken == ""` has no token.
abbrev pub client_token : Option Secret → Option String
client_token none = none
client_token (some secret) = elim secret.auth [
  | none ↦ none
  | some auth ↦ if auth.client_token == "" then none else some auth.client_token
]

module _ {S C : Type 0} (api : VaultApi S C) (collector : Option (MetricsCollector S)) where
  -- `if v.metricsCollector != nil { v.metricsCollector.RecordAuth(…, time.Since(start), err) }`
  unfoldable pub record_auth : String → ℕ → Option Error → Eff S (Unit {0})
  record_auth method start e = elim collector [
    | none ↦ pure tt
    | some c ↦ api.now >>= λ end. c.record_auth method "vault" (end - start) e
  ]

  unfoldable pub authenticate_kubernetes : VaultBackend C → Config → Eff S (Result (Unit {0}))
  unfolding record_auth
  authenticate_kubernetes v config = api.now >>= λ start.
      attempt (api.read_file service_account_token_path)
        (λ e. do
          record_auth "kubernetes" start (some e)
          pure (err (wrap "failed to read service account token" e)))
        λ jwt.
          attempt
            (api.logical_write v.client ("auth/" <> config.kubernetes_auth_path <> "/login")
              (("jwt", str jwt) ∷ ("role", str config.kubernetes_auth_role) ∷ []))
            (λ e. do
              record_auth "kubernetes" start (some e)
              pure (err (wrap "kubernetes auth login failed" e)))
            λ secret. elim (client_token secret) [
              | none ↦ do
                record_auth "kubernetes" start (some (errorf "kubernetes auth returned no token"))
                pure (err (errorf "kubernetes auth returned no token"))
              | some token ↦ do
                api.set_token v.client token
                record_auth "kubernetes" start none
                pure (ok tt)
            ]

  unfoldable pub authenticate_token : VaultBackend C → Config → Eff S (Result (Unit {0}))
  unfolding record_auth
  authenticate_token v config = api.now >>= λ start.
      if config.token == ""
      then (do
        record_auth "token" start (some (errorf "token is required for token authentication"))
        pure (err (errorf "token is required for token authentication")))
      else do
        api.set_token v.client config.token
        looked_up ← api.lookup_self v.client
        elim looked_up [
          | err e ↦ do
            record_auth "token" start (some e)
            pure (err (wrap "token validation failed" e))
          | ok _ ↦ do record_auth "token" start none; pure (ok tt)
        ]

  unfoldable pub authenticate : VaultBackend C → Config → Eff S (Result (Unit {0}))
  authenticate v config =
      if config.auth_method == "kubernetes"
      then authenticate_kubernetes v config
      else if config.auth_method == "token"
      then authenticate_token v config
      else if config.auth_method == "approle"
      then pure (err (errorf "approle authentication not yet implemented"))
      else pure (err (errorf ("unsupported auth method: " <> config.auth_method)))
