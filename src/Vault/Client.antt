-- ===== src/Vault/Client.antt =====
-- What the Vault backend calls: HashiCorp's client library, the file system and the clock. `C` is
-- the type of client values, and the state holds the server and what a client keeps.
use bmc_secret_operator.Base.{ℕ, String, Bool, Option, Result}
use bmc_secret_operator.Base.Dict.{Dict}
use bmc_secret_operator.Base.Effect.{Eff}
use bmc_secret_operator.Interface.{SecretData}

pub record KvSecret : Type 0 where
  pub payload : Option SecretData

pub record Auth : Type 0 where
  pub client_token : String

pub record Secret : Type 0 where
  pub payload : Option SecretData
  pub auth : Option Auth

pub record Mount : Type 0 where
  pub type : String
  pub options : Option (Dict String)

-- `new_client` takes the address, `InsecureSkipVerify` and the CA certificate of the pool.
pub record VaultApi (S C : Type 0) : Type 0 where
  pub append_certs_from_pem : String → Bool
  pub new_client : String → Bool → Option String → Eff S (Result C)
  pub set_token : C → String → Eff S (Unit {0})
  pub lookup_self : C → Eff S (Result (Unit {0}))
  pub list_mounts : C → Eff S (Result (Dict Mount))
  pub kv2_put : C → String → String → SecretData → Eff S (Result (Unit {0}))
  pub kv2_get : C → String → String → Eff S (Result (Option KvSecret))
  pub kv2_delete_metadata : C → String → String → Eff S (Result (Unit {0}))
  pub logical_write : C → String → SecretData → Eff S (Result (Option Secret))
  pub logical_read : C → String → Eff S (Result (Option Secret))
  pub logical_delete : C → String → Eff S (Result (Option Secret))
  pub read_file : String → Eff S (Result String)
  pub now : Eff S ℕ
