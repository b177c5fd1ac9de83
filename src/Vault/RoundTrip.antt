-- ===== src/Vault/RoundTrip.antt =====
-- `SecretExists`, and the round trips of the Vault backend's operations.
use mathlib.Core.Bool.{false≢true}
use bmc_secret_operator.Base.{
  ◌≡◌, ◌≢◌, sym, ◌∙◌, ap, String, Bool, true, false, Option, none, some, Error, ok, err,
}
use bmc_secret_operator.Base.{inl, inr, Result-cases, Bool-cases}
use bmc_secret_operator.Base.Text.{has_infix}
use bmc_secret_operator.Interface.{SecretData}
use bmc_secret_operator.Interface.Store.{is_some}
use bmc_secret_operator.Vault.{
  VaultBackend, build_path, write_secret, read_secret, delete_secret, secret_exists,
}
use bmc_secret_operator.Vault.Client.{VaultApi}
use bmc_secret_operator.Vault.Failure.{not_found_text}
use bmc_secret_operator.Vault.Store.{
  IsServer, place, read_value, read_missing, write_value, delete_value,
}

module _ {S C L : Type 0} {api : VaultApi S C} {kv2 : C → String → String → L}
    {logical : C → String → L} {stored : S → L → Option SecretData}
    (server : IsServer api kv2 logical stored) where
  -- The test, where an error that says "secret not found" means that there is none.
  pub secret_exists_from :
      (v : VaultBackend C) (path : String) (s : S) (e : Bool)
      → ((failure : Error)
          → (read_secret api v path s).0 ≡ err failure
          → has_infix failure.message not_found_text ≡ true
          → stored s (place server v path) ≡ none)
      → (secret_exists api v path s).0 ≡ ok e
      → e ≡ is_some (stored s (place server v path))
  unfolding secret_exists
  secret_exists_from v path s e missing h = elim (Result-cases (read_secret api v path s).0) [
    | inl (content, x) ↦
        let (same, there) = read_value server v.is_kv_v2 v.client v.mount_path path s content x in
        let yes : true ≡ e = cc (rw (x, secret_exists) at h) in
        sym yes ∙ sym there ∙ ap is_some (sym same)
    | inr (failure, x) ↦ elim (Bool-cases (has_infix failure.message not_found_text)) [
      | inl t ↦
          let no : false ≡ e = cc (rw (x, t, secret_exists) at h) in
          sym no ∙ ap is_some (sym (missing failure x t))
      | inr f ↦ cc (rw (x, f, secret_exists) at h)
    ]
  ]

  -- Given a server that keeps what is written, and a full path that does not itself contain the
  -- text "secret not found": an existence test that returns says whether there is content, although
  -- it knows an absent secret only by the text of an error.
  pub secret_exists_exact :
      (v : VaultBackend C) (path : String) (s : S) (e : Bool)
      → has_infix (build_path v path) not_found_text ≡ false
      → (secret_exists api v path s).0 ≡ ok e
      → e ≡ is_some (stored s (place server v path))
  secret_exists_exact v path s e clean =
      secret_exists_from v path s e
        (λ failure. read_missing server v.is_kv_v2 v.client v.mount_path path s failure clean)

  -- Given a server that keeps what is written, and a full path that does not contain the text
  -- "secret not found": after a write that returned, a read that returns has what was written, and
  -- an existence test that returns says yes.
  pub write_secret-read_secret :
      (v : VaultBackend C) (path : String) (content : SecretData) (s : S)
      → has_infix (build_path v path) not_found_text ≡ false
      → (write_secret api v path content s).0 ≡ ok tt
      → (answer : Option SecretData) (e : Bool)
      → (read_secret api v path (write_secret api v path content s).1).0 ≡ ok answer
      → (secret_exists api v path (write_secret api v path content s).1).0 ≡ ok e
      → (answer ≡ some content) × (e ≡ true)
  write_secret-read_secret v path content s clean w answer e r x =
      let there = write_value server v.is_kv_v2 v.client v.mount_path path content s w in
      (
        sym (read_value server v.is_kv_v2 v.client v.mount_path path _ answer r).0 ∙ there,
        secret_exists_exact v path _ e clean x ∙ ap is_some there,
      )

  -- Given a Vault server that keeps what is written, and a full path that does not contain the text
  -- "secret not found": after a deletion that returned without an error no read returns a secret,
  -- and an existence test that returns says no.
  pub delete_secret-read_secret :
      (v : VaultBackend C) (path : String) (s : S)
      → has_infix (build_path v path) not_found_text ≡ false
      → (delete_secret api v path s).0 ≡ ok tt
      → (e : Bool) → (secret_exists api v path (delete_secret api v path s).1).0 ≡ ok e
      → ((answer : Option SecretData)
          → (read_secret api v path (delete_secret api v path s).1).0 ≢ ok answer)
        × (e ≡ false)
  delete_secret-read_secret v path s clean d e x =
      let gone = delete_value server v.is_kv_v2 v.client v.mount_path path s d in
      (
        λ answer r.
            let (same, there) =
              read_value server v.is_kv_v2 v.client v.mount_path path _ answer r in
            false≢true (ap is_some (sym gone ∙ same) ∙ there),
        secret_exists_exact v path _ e clean x ∙ ap is_some gone,
      )
