-- ===== src/Tests/Vault.antt =====
-- The Vault backend's theorems at work on the server of `Server`.
use bmc_secret_operator.Base.{
  ◌≡◌, ◌∙◌, ap, ◌≢◌, ◌<>◌, refl, String, true, false, Option, none, some, [], ◌∷◌, ok, err, Error,
  Option-cases, inl, inr, eq_refl, arith,
}
use bmc_secret_operator.Base.Text.{has_infix, begins}
use bmc_secret_operator.Base.Dict.{lookup, insert, erase, lookup-insert, lookup-erase}
use bmc_secret_operator.Interface.{SecretData, str}
use bmc_secret_operator.Vault.{
  VaultBackend, build_path, write_secret, read_secret, delete_secret, secret_exists,
}
use bmc_secret_operator.Vault.Client.{KvSecret, Secret}
use bmc_secret_operator.Vault.Store.{IsServer, kv_content, content_of}
use bmc_secret_operator.Vault.RoundTrip.{write_secret-read_secret, delete_secret-read_secret}
use bmc_secret_operator.Tests.Server.{Contents, server}

abbrev pub stored : Contents → String → Option SecretData
stored s l = lookup l s

abbrev pub kv2 : String → String → String → String
kv2 client mount path = mount <> "/data/" <> path

abbrev pub logical : String → String → String
logical client path = path

get_value :
    (c mount path : String) (s : Contents) (answer : Option KvSecret)
    → (server.kv2_get c mount path s).0 ≡ ok answer
    → stored s (kv2 c mount path) ≡ kv_content answer
get_value c mount path s answer h = elim (Option-cases (lookup (mount <> "/data/" <> path) s)) [
  | inl e ↦ cc (rw (e, server) at h)
  | inr (content, e) ↦
      let found : some (record { payload = some content }) ≡ answer = cc (rw (e, server) at h) in
      e ∙ ap kv_content found
]

get_missing :
    (c mount path : String) (s : Contents) (e : Error)
    → (server.kv2_get c mount path s).0 ≡ err e
    → stored s (kv2 c mount path) ≡ none
get_missing c mount path s e h = elim (Option-cases (lookup (mount <> "/data/" <> path) s)) [
  | inl x ↦ x
  | inr (content, x) ↦ cc (rw (x, server) at h)
]

read_value :
    (c path : String) (s : Contents) (answer : Option Secret)
    → (server.logical_read c path s).0 ≡ ok answer
    → stored s (logical c path) ≡ content_of answer
read_value c path s answer h = elim (Option-cases (lookup path s)) [
  | inl e ↦ let found : none ≡ answer = cc (rw (e, server) at h) in e ∙ ap content_of found
  | inr (content, e) ↦
      let found : some (record { payload = some content; auth = none }) ≡ answer =
        cc (rw (e, server) at h) in
      e ∙ ap content_of found
]

read_returns :
    (c path : String) (s : Contents) (e : Error) → (server.logical_read c path s).0 ≢ err e
read_returns c path s e h = elim (Option-cases (lookup path s)) [
  | inl x ↦ cc (rw (x, server) at h)
  | inr (content, x) ↦ cc (rw (x, server) at h)
]

pub kept : IsServer server kv2 logical stored
kept = record {
  get_value = get_value;
  get_missing = λ c mount path s e h _. get_missing c mount path s e h;
  put_value = λ c mount path content s h. ground (
    arith,
    lookup-insert (mount <> "/data/" <> path) (mount <> "/data/" <> path) content s,
    eq_refl (mount <> "/data/" <> path),
  );
  delete_value = λ c mount path s h. ground (
    arith,
    lookup-erase (mount <> "/data/" <> path) (mount <> "/data/" <> path) s,
    eq_refl (mount <> "/data/" <> path),
  );
  logical_read_value = read_value;
  logical_read_missing = λ c path s e h _. absurd (read_returns c path s e h);
  logical_write_value =
      λ c path content s answer h. ground (arith, lookup-insert path path content s, eq_refl path);
  logical_delete_value =
      λ c path s answer h. ground (arith, lookup-erase path path s, eq_refl path);
}

abbrev vault : VaultBackend String
vault = record { client = "https://vault"; mount_path = "secret"; is_kv_v2 = true }

abbrev secret : SecretData
secret = ("password", str "secret") ∷ []

abbrev filled : Contents
filled = (write_secret server vault "bmc/eu" secret []).1

write_secret-read_secret_example : (some secret ≡ some secret) × (true ≡ true)
unfolding build_path has_infix begins write_secret secret_exists read_secret lookup insert
write_secret-read_secret_example =
    write_secret-read_secret kept vault "bmc/eu" secret [] refl refl (some secret) true refl refl

delete_secret-read_secret_example :
    ((answer : Option SecretData)
      → (read_secret server vault "bmc/eu" (delete_secret server vault "bmc/eu" filled).1).0
        ≢ ok answer)
    × (false ≡ false)
unfolding build_path has_infix begins write_secret delete_secret secret_exists read_secret lookup
    insert erase
delete_secret-read_secret_example =
    delete_secret-read_secret kept vault "bmc/eu" filled refl refl false refl
