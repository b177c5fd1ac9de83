-- ===== src/Api/Metal.antt =====
-- What the operator reads of metal-operator's BMC and BMCSecret objects: a third party's types, so
-- only the fields that this repository uses. `none` is a nil map, pointer or timestamp.
use bmc_secret_operator.Base.{ℕ, String, Option, List}
use bmc_secret_operator.Base.Dict.{Dict}

pub record BmcSecret : Type 0 where
  pub name : String
  pub labels : Option (Dict String)
  pub finalizers : List String
  pub deletion_timestamp : Option ℕ
  pub content : Dict String

-- `hostname` is `Spec.Hostname`, `endpoint_ref` the name in `Spec.EndpointRef`, and
-- `bmc_secret_ref` the name in `Spec.BMCSecretRef`.
pub record Bmc : Type 0 where
  pub name : String
  pub labels : Option (Dict String)
  pub hostname : Option String
  pub endpoint_ref : Option String
  pub bmc_secret_ref : String
