-- ===== src/Tests/Stores.antt =====
-- The server of `Server` below the operator's wrapped Vault backend.
use bmc_secret_operator.Base.{
  ◌≡◌, ◌⊎◌, refl, String, true, none, some, inl, inr, arith, ◌==◌, eq_iff, Bool-cases,
}
use bmc_secret_operator.Base.Dict.{insert, erase, lookup-insert, lookup-erase}
use bmc_secret_operator.Interface.{SecretData}
use bmc_secret_operator.Vault.Store.{kv_content}
use bmc_secret_operator.Vault.Mounted.{IsKv}
use bmc_secret_operator.Backend.{Backend, vault, instrumented}
use bmc_secret_operator.Backend.Shelf.{IsShelf}
use bmc_secret_operator.Backend.Stores.{IsPlainFor}
use bmc_secret_operator.Factory.{World}
use bmc_secret_operator.Factory.Release.{backend_methods}
use bmc_secret_operator.Factory.Stores.{backend_methods-IsShelf}
use bmc_secret_operator.Tests.World.{none≢some}
use bmc_secret_operator.Tests.Server.{Contents, server, deps}
use bmc_secret_operator.Tests.Vault.{stored, kv2, kept}

insert_frame :
    (path : String) (content : SecretData) (s : Contents) (l : String)
    → (stored (insert path content s) l ≡ stored s l)
      ⊎ ((l ≡ path) × (stored (insert path content s) l ≡ some content))
insert_frame path content s l = elim (Bool-cases (path == l)) [
  | inl same ↦ inr (ground (arith, eq_iff path l), ground (arith, lookup-insert path l content s))
  | inr other ↦ inl (ground (arith, lookup-insert path l content s))
]

erase_frame :
    (path : String) (s : Contents) (l : String)
    → (stored (erase path s) l ≡ stored s l) ⊎ ((l ≡ path) × (stored (erase path s) l ≡ none))
erase_frame path s l = elim (Bool-cases (path == l)) [
  | inl same ↦ inr (ground (arith, eq_iff path l), ground (arith, lookup-erase path l s))
  | inr other ↦ inl (ground (arith, lookup-erase path l s))
]

abbrev place : String → String
place path = kv2 "https://vault" "secret" path

mounted :
    IsKv stored place kv_content
      (server.kv2_get "https://vault" "secret")
      (server.kv2_put "https://vault" "secret")
      (server.kv2_delete_metadata "https://vault" "secret")
mounted = record {
  get_value = kept.get_value "https://vault" "secret";
  get_missing = kept.get_missing "https://vault" "secret";
  get_frame = λ path s l. refl;
  put_value = λ path content s x. kept.put_value "https://vault" "secret" path content s;
  put_frame = λ path. insert_frame (place path);
  delete_value = λ path s x. kept.delete_value "https://vault" "secret" path s;
  delete_frame = λ path. erase_frame (place path);
}

abbrev wrapped : Backend String
wrapped =
    instrumented
      (vault (record { client = "https://vault"; mount_path = "secret"; is_kv_v2 = true })) "vault"

backend_methods-IsShelf_example :
    IsShelf {S = World Contents String}
      (λ w. stored w.outside)
      place
      (IsPlainFor server stored place wrapped)
      ((backend_methods deps).write_secret wrapped)
      ((backend_methods deps).read_secret wrapped)
      ((backend_methods deps).delete_secret wrapped)
      ((backend_methods deps).secret_exists wrapped)
backend_methods-IsShelf_example =
    backend_methods-IsShelf deps stored (λ s l. refl) (λ c h. absurd (none≢some c h)) place wrapped
      mounted
