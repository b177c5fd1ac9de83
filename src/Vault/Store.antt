-- ===== src/Vault/Store.antt =====
-- What the Vault backend promises, given a server that keeps what is written to it.
use bmc_secret_operator.Base.{
  ◌≡◌, refl, sym, ◌∙◌, ap, wrap, ◌<>◌, String, Bool, true, false, Option, none, some, Error, ok,
  err,
}
use bmc_secret_operator.Base.{inl, inr, Result-cases, arith, if◌then◌else◌}
use bmc_secret_operator.Base.Text.{has_infix}
use bmc_secret_operator.Interface.{SecretData}
use bmc_secret_operator.Interface.Store.{is_some}
use bmc_secret_operator.Vault.{
  VaultBackend, build_path, kv_payload, logical_payload, write_secret, read_secret, delete_secret,
}
use bmc_secret_operator.Vault.Client.{VaultApi, KvSecret, Secret}
use bmc_secret_operator.Vault.Failure.{not_found_text, read_failure}

abbrev pub kv_content : Option KvSecret → Option SecretData
kv_content none = none
kv_content (some secret) = secret.payload

abbrev pub content_of : Option Secret → Option SecretData
content_of none = none
content_of (some secret) = secret.payload

-- The documented behaviour of the KV version 2 engine, by mount and path, and of the logical
-- interface, by full path: a read that returns has the content, an error that says "secret not
-- found" means that there is none, and a write or a deletion that returns is in effect.
pub record IsServer {S C L : Type 0} (api : VaultApi S C) (kv2 : C → String → String → L)
    (logical : C → String → L) (stored : S → L → Option SecretData) : Type 0 where
  pub get_value :
      (c : C) (mount path : String) (s : S) (answer : Option KvSecret)
      → (api.kv2_get c mount path s).0 ≡ ok answer
      → stored s (kv2 c mount path) ≡ kv_content answer
  pub get_missing :
      (c : C) (mount path : String) (s : S) (e : Error)
      → (api.kv2_get c mount path s).0 ≡ err e
      → has_infix e.message not_found_text ≡ true
      → stored s (kv2 c mount path) ≡ none
  pub put_value :
      (c : C) (mount path : String) (content : SecretData) (s : S)
      → (api.kv2_put c mount path content s).0 ≡ ok tt
      → stored (api.kv2_put c mount path content s).1 (kv2 c mount path) ≡ some content
  pub delete_value :
      (c : C) (mount path : String) (s : S)
      → (api.kv2_delete_metadata c mount path s).0 ≡ ok tt
      → stored (api.kv2_delete_metadata c mount path s).1 (kv2 c mount path) ≡ none
  pub logical_read_value :
      (c : C) (path : String) (s : S) (answer : Option Secret)
      → (api.logical_read c path s).0 ≡ ok answer
      → stored s (logical c path) ≡ content_of answer
  pub logical_read_missing :
      (c : C) (path : String) (s : S) (e : Error)
      → (api.logical_read c path s).0 ≡ err e
      → has_infix e.message not_found_text ≡ true
      → stored s (logical c path) ≡ none
  pub logical_write_value :
      (c : C) (path : String) (content : SecretData) (s : S) (answer : Option Secret)
      → (api.logical_write c path content s).0 ≡ ok answer
      → stored (api.logical_write c path content s).1 (logical c path) ≡ some content
  pub logical_delete_value :
      (c : C) (path : String) (s : S) (answer : Option Secret)
      → (api.logical_delete c path s).0 ≡ ok answer
      → stored (api.logical_delete c path s).1 (logical c path) ≡ none

pub kv_payload_value :
    (full_path : String) (answer : Option KvSecret) (content : Option SecretData)
    → kv_payload full_path answer ≡ ok content
    → (kv_content answer ≡ content) × (is_some content ≡ true)
kv_payload_value full_path none content h = cc
kv_payload_value full_path (some secret) content h = ground arith

pub kv_payload_missing :
    (full_path : String) (answer : Option KvSecret) (e : Error)
    → kv_payload full_path answer ≡ err e
    → kv_content answer ≡ none
kv_payload_missing full_path none e h = refl
kv_payload_missing full_path (some secret) e h = ground arith

pub logical_payload_value :
    (full_path : String) (answer : Option Secret) (content : Option SecretData)
    → logical_payload full_path answer ≡ ok content
    → (content_of answer ≡ content) × (is_some content ≡ true)
logical_payload_value full_path none content h = cc
logical_payload_value full_path (some secret) content h = ground arith

pub logical_payload_missing :
    (full_path : String) (answer : Option Secret) (e : Error)
    → logical_payload full_path answer ≡ err e
    → content_of answer ≡ none
logical_payload_missing full_path none e h = refl
logical_payload_missing full_path (some secret) e h = ground arith

module _ {S C L : Type 0} {api : VaultApi S C} {kv2 : C → String → String → L}
    {logical : C → String → L} {stored : S → L → Option SecretData}
    (server : IsServer api kv2 logical stored) where
  -- Where the backend keeps a path.
  abbrev pub place : VaultBackend C → String → L
  place v path =
      if v.is_kv_v2 then kv2 v.client v.mount_path path else logical v.client (build_path v path)

  abbrev backend : C → String → Bool → VaultBackend C
  backend c mount v2 = record { client = c; mount_path = mount; is_kv_v2 = v2 }

  -- A read that returns has the content of the place, and there is some.
  pub read_value :
      (v2 : Bool) (c : C) (mount path : String) (s : S) (content : Option SecretData)
      → (read_secret api (backend c mount v2) path s).0 ≡ ok content
      → (stored s (place (backend c mount v2) path) ≡ content) × (is_some content ≡ true)
  unfolding read_secret
  read_value true c mount path s content h = elim (Result-cases (api.kv2_get c mount path s).0) [
    | inr (e, x) ↦ cc (rw (x, read_secret) at h)
    | inl (answer, x) ↦
        let (same, there) = kv_payload_value _ answer content (rw (x, read_secret) at h) in
        (server.get_value c mount path s answer x ∙ same, there)
  ]
  read_value false c mount path s content h =
      elim (Result-cases (api.logical_read c (build_path (backend c mount false) path) s).0) [
        | inr (e, x) ↦ cc (rw (x, read_secret) at h)
        | inl (answer, x) ↦
            let (same, there) = logical_payload_value _ answer content (rw (x, read_secret) at h) in
            (server.logical_read_value c _ s answer x ∙ same, there)
      ]

  pub read_missing :
      (v2 : Bool) (c : C) (mount path : String) (s : S) (e : Error)
      → has_infix (build_path (backend c mount v2) path) not_found_text ≡ false
      → (read_secret api (backend c mount v2) path s).0 ≡ err e
      → has_infix e.message not_found_text ≡ true
      → stored s (place (backend c mount v2) path) ≡ none
  unfolding read_secret
  read_missing true c mount path s e clean h says =
      elim (Result-cases (api.kv2_get c mount path s).0) [
        | inr (cause, x) ↦
            let wrapped : wrap
                  ("failed to read secret from vault at " <> build_path (backend c mount true) path)
                  cause
                ≡ e =
              cc (rw (x, read_secret) at h) in
            server.get_missing c mount path s cause x (
              sym (read_failure _ cause clean)
              ∙ ap (λ (f : Error). has_infix f.message not_found_text) wrapped
              ∙ says)
        | inl (answer, x) ↦
            server.get_value c mount path s answer x
            ∙ kv_payload_missing _ answer e (rw (x, read_secret) at h)
      ]
  read_missing false c mount path s e clean h says =
      elim (Result-cases (api.logical_read c (build_path (backend c mount false) path) s).0) [
        | inr (cause, x) ↦
            let wrapped : wrap
                  ("failed to read secret from vault at "
                    <> build_path (backend c mount false) path)
                  cause
                ≡ e =
              cc (rw (x, read_secret) at h) in
            server.logical_read_missing c _ s cause x (
              sym (read_failure _ cause clean)
              ∙ ap (λ (f : Error). has_infix f.message not_found_text) wrapped
              ∙ says)
        | inl (answer, x) ↦
            server.logical_read_value c _ s answer x
            ∙ logical_payload_missing _ answer e (rw (x, read_secret) at h)
      ]

  pub write_value :
      (v2 : Bool) (c : C) (mount path : String) (content : SecretData) (s : S)
      → (write_secret api (backend c mount v2) path content s).0 ≡ ok tt
      → stored
          (write_secret api (backend c mount v2) path content s).1
          (place (backend c mount v2) path)
        ≡ some content
  unfolding write_secret
  write_value true c mount path content s h =
      elim (Result-cases (api.kv2_put c mount path content s).0) [
        | inr (e, x) ↦ cc (rw (x, write_secret) at h)
        | inl (_, x) ↦ rw (x, write_secret) (server.put_value c mount path content s x)
      ]
  write_value false c mount path content s h =
      elim (Result-cases
        (api.logical_write c (build_path (backend c mount false) path) content s).0) [
          | inr (e, x) ↦ cc (rw (x, write_secret) at h)
          | inl (answer, x) ↦
              rw (x, write_secret) (server.logical_write_value c _ content s answer x)
        ]

  pub delete_value :
      (v2 : Bool) (c : C) (mount path : String) (s : S)
      → (delete_secret api (backend c mount v2) path s).0 ≡ ok tt
      → stored (delete_secret api (backend c mount v2) path s).1 (place (backend c mount v2) path)
        ≡ none
  unfolding delete_secret
  delete_value true c mount path s h =
      elim (Result-cases (api.kv2_delete_metadata c mount path s).0) [
        | inr (e, x) ↦ cc (rw (x, delete_secret) at h)
        | inl (_, x) ↦ rw (x, delete_secret) (server.delete_value c mount path s x)
      ]
  delete_value false c mount path s h =
      elim (Result-cases (api.logical_delete c (build_path (backend c mount false) path) s).0) [
        | inr (e, x) ↦ cc (rw (x, delete_secret) at h)
        | inl (answer, x) ↦ rw (x, delete_secret) (server.logical_delete_value c _ s answer x)
      ]
