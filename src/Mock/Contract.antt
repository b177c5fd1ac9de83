-- ===== src/Mock/Contract.antt =====
-- The in-memory backend and the contract of a store.
use bmc_secret_operator.Base.{
  ◌≡◌, ◌⊎◌, ok, String, Option, none, some, ◌==◌, eq_iff, eq_refl, arith, inl, inr, Bool-cases,
  Option-cases,
}
use bmc_secret_operator.Base.Dict.{lookup, lookup-insert, lookup-erase}
use bmc_secret_operator.Interface.{SecretData}
use bmc_secret_operator.Interface.Store.{IsStore}
use bmc_secret_operator.Mock.{
  MockBackend, write_secret, read_secret, delete_secret, secret_exists, methods,
}

abbrev pub contents : MockBackend → String → Option SecretData
contents m path = lookup path m.secrets

write_secret_frame :
    (path : String) (content : SecretData) (m : MockBackend) (l : String)
    → (contents (write_secret path content m).1 l ≡ contents m l)
      ⊎ ((l ≡ path) × (contents (write_secret path content m).1 l ≡ some content))
unfolding write_secret
write_secret_frame path content m l = elim (Option-cases m.write_error) [
  | inr (e, h) ↦ inl (ground arith)
  | inl h ↦ elim (Bool-cases (path == l)) [
    | inl same ↦
        inr (ground (arith, eq_iff path l), ground (arith, lookup-insert path l content m.secrets))
    | inr other ↦ inl (ground (arith, lookup-insert path l content m.secrets))
  ]
]

delete_secret_frame :
    (path : String) (m : MockBackend) (l : String)
    → (contents (delete_secret path m).1 l ≡ contents m l)
      ⊎ ((l ≡ path) × (contents (delete_secret path m).1 l ≡ none))
unfolding delete_secret
delete_secret_frame path m l = elim (Option-cases m.delete_error) [
  | inr (e, h) ↦ inl (ground arith)
  | inl h ↦ elim (Bool-cases (path == l)) [
    | inl same ↦ inr (ground (arith, eq_iff path l), ground (arith, lookup-erase path l m.secrets))
    | inr other ↦ inl (ground (arith, lookup-erase path l m.secrets))
  ]
]

read_secret_value :
    (path : String) (m : MockBackend) (content : Option SecretData)
    → (read_secret path m).0 ≡ ok content
    → contents m path ≡ content
unfolding read_secret
read_secret_value path m content h = ground arith

-- Whatever errors a test has configured, the mock backend is a store: its places are the paths, and
-- its contents the map of secrets.
pub mock-IsStore : IsStore methods (λ _ path. path) contents
unfolding write_secret read_secret delete_secret secret_exists
mock-IsStore = record {
  exists_value = λ b path s e h. ground arith;
  exists_frame = λ b path s l. ground arith;
  read_value = λ b path s content h. read_secret_value path s content h;
  read_frame = λ b path s l. ground arith;
  write_value =
      λ b path content s h. ground (arith, lookup-insert path path content s.secrets, eq_refl path);
  write_frame = λ b path content s l. write_secret_frame path content s l;
  delete_value = λ b path s h. ground (arith, lookup-erase path path s.secrets, eq_refl path);
  delete_frame = λ b path s l. delete_secret_frame path s l;
}
