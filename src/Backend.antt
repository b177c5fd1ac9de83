-- ===== src/Backend.antt =====
-- The values that implement the interface `Backend`: Vault, OpenBao, and the two wrappers of
-- internal/secretbackend/factory.go that record metrics.
pub mod Shelf
pub mod Timed
pub mod Stores
use bmc_secret_operator.Base.{ℕ, ◌-◌, String, Bool, Option, none, some}
use bmc_secret_operator.Base.{Error, Result, ok, err, errorf, error_of}
use bmc_secret_operator.Base.Effect.{Eff, ◌>>=◌, ◌>>◌, pure}
use bmc_secret_operator.Interface.{BackendInterface, MetricsCollector, SecretData}
use bmc_secret_operator.Vault
use bmc_secret_operator.Vault.{VaultBackend}
use bmc_secret_operator.Vault.Client.{VaultApi}

-- internal/secretbackend/openbao: a stub
pub record OpenBaoConfig : Type 0 where
  pub address : String
  pub auth_method : String

-- The collector of a wrapper is the factory's, an argument of the methods; a type assertion on a
-- nil collector fails, so nothing is recorded then.
pub data Backend (C : Type 0) : Type 0 where
  vault : VaultBackend C → Backend C
  open_bao : Backend C
  instrumented : Backend C → String → Backend C
  instrumented_with_engine : Backend C → String → String → Backend C

not_yet_implemented : Error
not_yet_implemented = errorf "OpenBao backend not yet implemented"

-- `NewOpenBaoBackend`, which the factory never calls
unfoldable pub new_open_bao_backend : {C : Type 0} → OpenBaoConfig → Result (Backend C)
unfolding not_yet_implemented
new_open_bao_backend config = err not_yet_implemented

module _ {S C : Type 0} (api : VaultApi S C) (collector : Option (MetricsCollector S)) where
  -- `RecordBackendOperation`, if the collector has it
  unfoldable pub record_operation : String → String → ℕ → Option Error → Eff S (Unit {0})
  record_operation operation backend_type duration e = elim collector [
    | none ↦ pure tt
    | some c ↦ elim c.record_backend_operation [
      | none ↦ pure tt
      | some record_op ↦ record_op operation backend_type duration e
    ]
  ]

  unfoldable pub record_operation_with_engine :
      String → String → String → ℕ → Option Error → Eff S (Unit {0})
  unfolding record_operation
  record_operation_with_engine operation backend_type engine duration e = elim collector [
    | none ↦ pure tt
    | some c ↦ elim c.record_backend_operation_with_engine [
      | none ↦ record_operation operation backend_type duration e
      | some record_op ↦ record_op operation backend_type engine duration e
    ]
  ]

module _ {S C : Type 0} {A : Type 0} (api : VaultApi S C)
    (collector : Option (MetricsCollector S)) where
  -- The body that every method of a wrapper has: time the inner call, record it, return its result.
  unfoldable pub timed : (ℕ → Option Error → Eff S (Unit {0})) → Eff S (Result A) → Eff S (Result A)
  timed record_op m = do
    start ← api.now
    r ← m
    end ← api.now
    record_op (end - start) (error_of r)
    pure r

module _ {S C : Type 0} (api : VaultApi S C) (collector : Option (MetricsCollector S)) where
  unfoldable pub write_secret : Backend C → String → SecretData → Eff S (Result (Unit {0}))
  unfolding timed record_operation record_operation_with_engine Vault.write_secret
      not_yet_implemented
  write_secret (vault v) path content = Vault.write_secret api v path content
  write_secret open_bao path content = pure (err not_yet_implemented)
  write_secret (instrumented b backend_type) path content =
      timed api collector (record_operation api collector "write" backend_type)
        (write_secret b path content)
  write_secret (instrumented_with_engine b backend_type engine) path content =
      timed api collector (record_operation_with_engine api collector "write" backend_type engine)
        (write_secret b path content)

  unfoldable pub read_secret : Backend C → String → Eff S (Result (Option SecretData))
  unfolding timed record_operation record_operation_with_engine Vault.read_secret
      not_yet_implemented
  read_secret (vault v) path = Vault.read_secret api v path
  read_secret open_bao path = pure (err not_yet_implemented)
  read_secret (instrumented b backend_type) path =
      timed api collector (record_operation api collector "read" backend_type) (read_secret b path)
  read_secret (instrumented_with_engine b backend_type engine) path =
      timed api collector (record_operation_with_engine api collector "read" backend_type engine)
        (read_secret b path)

  unfoldable pub delete_secret : Backend C → String → Eff S (Result (Unit {0}))
  unfolding timed record_operation record_operation_with_engine Vault.delete_secret
      not_yet_implemented
  delete_secret (vault v) path = Vault.delete_secret api v path
  delete_secret open_bao path = pure (err not_yet_implemented)
  delete_secret (instrumented b backend_type) path =
      timed api collector (record_operation api collector "delete" backend_type)
        (delete_secret b path)
  delete_secret (instrumented_with_engine b backend_type engine) path =
      timed api collector (record_operation_with_engine api collector "delete" backend_type engine)
        (delete_secret b path)

  unfoldable pub secret_exists : Backend C → String → Eff S (Result Bool)
  unfolding timed record_operation record_operation_with_engine Vault.secret_exists
      not_yet_implemented
  secret_exists (vault v) path = Vault.secret_exists api v path
  secret_exists open_bao path = pure (err not_yet_implemented)
  secret_exists (instrumented b backend_type) path =
      timed api collector (record_operation api collector "exists" backend_type)
        (secret_exists b path)
  secret_exists (instrumented_with_engine b backend_type engine) path =
      timed api collector (record_operation_with_engine api collector "exists" backend_type engine)
        (secret_exists b path)

  unfoldable pub close : Backend C → Eff S (Result (Unit {0}))
  unfolding Vault.close
  close (vault v) = Vault.close api v
  close open_bao = pure (ok tt)
  close (instrumented b backend_type) = close b
  close (instrumented_with_engine b backend_type engine) = close b

  abbrev pub methods : BackendInterface S (Backend C)
  methods = record {
    write_secret = write_secret;
    read_secret = read_secret;
    delete_secret = delete_secret;
    secret_exists = secret_exists;
    close = close;
  }
