-- ===== src/Mock.antt =====
-- internal/controller/mock: the in-memory backend and the factories that the tests run on.
pub mod Engines
pub mod Agreement
pub mod Contract
pub mod Multi
pub mod Filter
pub mod Single
use bmc_secret_operator.Base.{ℕ, zero, suc, String, ◌<>◌, Bool, true, false, Option, none, some}
use bmc_secret_operator.Base.{List, [], ◌∷◌, ◌++◌, length, Error, Result, ok, err, errorf}
use bmc_secret_operator.Base.Effect.{Eff, pure}
use bmc_secret_operator.Base.Dict.{Dict, lookup, insert, erase}
use bmc_secret_operator.Interface.{BackendInterface, SecretData}

pub record MockBackend : Type 0 where
  pub secrets : Dict SecretData
  pub write_secret_calls : List (String × SecretData)
  pub read_secret_calls : List String
  pub delete_secret_calls : List String
  pub secret_exists_calls : List String
  pub close_called : Bool
  pub write_error : Option Error
  pub read_error : Option Error
  pub delete_error : Option Error
  pub secret_exists_error : Option Error

-- `NewMockBackend`
abbrev pub new_mock_backend : MockBackend
new_mock_backend = record {
  secrets = [];
  write_secret_calls = [];
  read_secret_calls = [];
  delete_secret_calls = [];
  secret_exists_calls = [];
  close_called = false;
  write_error = none;
  read_error = none;
  delete_error = none;
  secret_exists_error = none;
}

unfoldable pub write_secret : String → SecretData → Eff MockBackend (Result (Unit {0}))
write_secret path content m =
    let m' = record m { write_secret_calls = m.write_secret_calls ++ (path, content) ∷ [] } in
    elim m.write_error [
      | some e ↦ (err e, m')
      | none ↦ (ok tt, record m' { secrets = insert path content m.secrets })
    ]

unfoldable pub read_secret : String → Eff MockBackend (Result (Option SecretData))
read_secret path m =
    let m' = record m { read_secret_calls = m.read_secret_calls ++ path ∷ [] } in
    elim m.read_error [
      | some e ↦ (err e, m')
      | none ↦ elim (lookup path m.secrets) [
        | none ↦ (err (errorf ("secret not found at " <> path)), m')
        | some content ↦ (ok (some content), m')
      ]
    ]

unfoldable pub delete_secret : String → Eff MockBackend (Result (Unit {0}))
delete_secret path m =
    let m' = record m { delete_secret_calls = m.delete_secret_calls ++ path ∷ [] } in
    elim m.delete_error [
      | some e ↦ (err e, m')
      | none ↦ (ok tt, record m' { secrets = erase path m.secrets })
    ]

unfoldable pub secret_exists : String → Eff MockBackend (Result Bool)
secret_exists path m =
    let m' = record m { secret_exists_calls = m.secret_exists_calls ++ path ∷ [] } in
    elim m.secret_exists_error [
      | some e ↦ (err e, m')
      | none ↦ (ok (elim (lookup path m.secrets) [ none ↦ false | some _ ↦ true ]), m')
    ]

unfoldable pub close : Eff MockBackend (Result (Unit {0}))
close m = (ok tt, record m { close_called = true })

unfoldable pub reset : Eff MockBackend (Unit {0})
reset m = (tt, new_mock_backend)

unfoldable pub get_write_call_count : MockBackend → ℕ
get_write_call_count m = length m.write_secret_calls

unfoldable pub get_delete_call_count : MockBackend → ℕ
get_delete_call_count m = length m.delete_secret_calls

unfoldable pub get_secret_count : MockBackend → ℕ
get_secret_count m = length m.secrets

-- A system that holds one backend: the backend value is a unit.
abbrev pub methods : BackendInterface MockBackend (Unit {0})
methods = record {
  write_secret = λ _. write_secret;
  read_secret = λ _. read_secret;
  delete_secret = λ _. delete_secret;
  secret_exists = λ _. secret_exists;
  close = λ _. close;
}
