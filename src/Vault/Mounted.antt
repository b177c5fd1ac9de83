-- ===== src/Vault/Mounted.antt =====
-- The Vault backend over the KV engine that is mounted at its path.
use bmc_secret_operator.Base.{
  ◌≡◌, ◌⊎◌, sym, ◌∙◌, ap, wrap, ◌<>◌, String, Bool, true, false, Option, none, some, Error, Result,
  ok, err, inl, inr, Result-cases, Bool-cases, if◌then◌else◌,
}
use bmc_secret_operator.Base.Effect.{Eff, attempt, pure}
use bmc_secret_operator.Base.Text.{has_infix}
use bmc_secret_operator.Interface.{SecretData}
use bmc_secret_operator.Interface.Store.{IsQuiet, is_some}
use bmc_secret_operator.Vault.{
  VaultBackend, build_path, kv_payload, logical_payload, write_secret, read_secret, delete_secret,
  secret_exists,
}
use bmc_secret_operator.Vault.Client.{VaultApi}
use bmc_secret_operator.Vault.Failure.{not_found_text, read_failure}
use bmc_secret_operator.Vault.Store.{
  kv_content, content_of, kv_payload_value, kv_payload_missing, logical_payload_value,
  logical_payload_missing,
}
use bmc_secret_operator.Backend.Shelf.{IsShelf}

-- The documented behaviour of a KV engine at the paths below its mount: a read that returns has the
-- content, an error that says "secret not found" means that there is none, a write or a deletion
-- that returns is in effect, one that fails may be, and nothing else is changed.
pub record IsKv {S L A X Y : Type 0} (stored : S → L → Option SecretData) (place : String → L)
    (content : Option A → Option SecretData) (get : String → Eff S (Result (Option A)))
    (put : String → SecretData → Eff S (Result X)) (delete : String → Eff S (Result Y))
    : Type 0 where
  pub get_value :
      (path : String) (s : S) (answer : Option A)
      → (get path s).0 ≡ ok answer
      → stored s (place path) ≡ content answer
  pub get_missing :
      (path : String) (s : S) (e : Error)
      → (get path s).0 ≡ err e
      → has_infix e.message not_found_text ≡ true
      → stored s (place path) ≡ none
  pub get_frame : (path : String) → IsQuiet stored (get path)
  pub put_value :
      (path : String) (secret : SecretData) (s : S) (x : X)
      → (put path secret s).0 ≡ ok x
      → stored (put path secret s).1 (place path) ≡ some secret
  pub put_frame :
      (path : String) (secret : SecretData) (s : S) (l : L)
      → (stored (put path secret s).1 l ≡ stored s l)
        ⊎ ((l ≡ place path) × (stored (put path secret s).1 l ≡ some secret))
  pub delete_value :
      (path : String) (s : S) (y : Y)
      → (delete path s).0 ≡ ok y
      → stored (delete path s).1 (place path) ≡ none
  pub delete_frame :
      (path : String) (s : S) (l : L)
      → (stored (delete path s).1 l ≡ stored s l)
        ⊎ ((l ≡ place path) × (stored (delete path s).1 l ≡ none))

module _ {S L A X Y : Type 0} {stored : S → L → Option SecretData} {place : String → L}
    {content : Option A → Option SecretData} {get : String → Eff S (Result (Option A))}
    {put : String → SecretData → Eff S (Result X)} {delete : String → Eff S (Result Y)}
    (kv : IsKv stored place content get put delete) (full : String → String)
    (payload : String → Option A → Result (Option SecretData))
    (payload_value : (path : String) (answer : Option A) (c : Option SecretData)
      → payload path answer ≡ ok c
      → (content answer ≡ c) × (is_some c ≡ true))
    (payload_missing : (path : String) (answer : Option A) (e : Error)
      → payload path answer ≡ err e
      → content answer ≡ none) where
  -- The shape that the backend's operations have in both versions of KV.
  abbrev write : String → SecretData → Eff S (Result (Unit {0}))
  write path secret =
      attempt (put path secret)
        (λ e. pure (err (wrap ("failed to write secret to vault at " <> full path) e)))
        (λ _. pure (ok tt))

  abbrev read : String → Eff S (Result (Option SecretData))
  read path =
      attempt (get path)
        (λ e. pure (err (wrap ("failed to read secret from vault at " <> full path) e)))
        (λ answer. pure (payload (full path) answer))

  abbrev remove : String → Eff S (Result (Unit {0}))
  remove path =
      attempt (delete path)
        (λ e. pure (err (wrap ("failed to delete secret from vault at " <> full path) e)))
        (λ _. pure (ok tt))

  abbrev exists : String → Eff S (Result Bool)
  exists path =
      attempt (read path)
        (λ e. if has_infix e.message not_found_text then pure (ok false) else pure (err e))
        (λ _. pure (ok true))

  read_value :
      (path : String) (s : S) (c : Option SecretData)
      → (read path s).0 ≡ ok c
      → (stored s (place path) ≡ c) × (is_some c ≡ true)
  read_value path s c h = elim (Result-cases (get path s).0) [
    | inr (e, x) ↦ cc (rw x at h)
    | inl (answer, x) ↦
        let (same, there) = payload_value (full path) answer c (rw x at h) in
        (kv.get_value path s answer x ∙ same, there)
  ]

  read_missing :
      (path : String) (s : S) (e : Error)
      → has_infix (full path) not_found_text ≡ false
      → (read path s).0 ≡ err e
      → has_infix e.message not_found_text ≡ true
      → stored s (place path) ≡ none
  read_missing path s e plain h says = elim (Result-cases (get path s).0) [
    | inr (cause, x) ↦
        let wrapped : wrap ("failed to read secret from vault at " <> full path) cause ≡ e =
          cc (rw x at h) in
        kv.get_missing path s cause x (
          sym (read_failure (full path) cause plain)
          ∙ ap (λ (f : Error). has_infix f.message not_found_text) wrapped
          ∙ says)
    | inl (answer, x) ↦
        kv.get_value path s answer x ∙ payload_missing (full path) answer e (rw x at h)
  ]

  read_frame : (path : String) → IsQuiet stored (read path)
  read_frame path s l = elim (Result-cases (get path s).0) [
    | inr (e, x) ↦ rw x (kv.get_frame path s l)
    | inl (answer, x) ↦ rw x (kv.get_frame path s l)
  ]

  exists_value :
      (path : String) (s : S) (e : Bool)
      → has_infix (full path) not_found_text ≡ false
      → (exists path s).0 ≡ ok e
      → e ≡ is_some (stored s (place path))
  exists_value path s e plain h = elim (Result-cases (read path s).0) [
    | inl (c, x) ↦
        let (same, there) = read_value path s c x in
        let yes : true ≡ e = cc (rw x at h) in sym yes ∙ sym there ∙ ap is_some (sym same)
    | inr (failure, x) ↦ elim (Bool-cases (has_infix failure.message not_found_text)) [
      | inl t ↦
          let no : false ≡ e = cc (rw (x, t) at h) in
          sym no ∙ ap is_some (sym (read_missing path s failure plain x t))
      | inr f ↦ cc (rw (x, f) at h)
    ]
  ]

  exists_frame : (path : String) → IsQuiet stored (exists path)
  exists_frame path s l = elim (Result-cases (read path s).0) [
    | inl (c, x) ↦ rw x (read_frame path s l)
    | inr (failure, x) ↦ elim (Bool-cases (has_infix failure.message not_found_text)) [
      | inl t ↦ rw (x, t) (read_frame path s l)
      | inr f ↦ rw (x, f) (read_frame path s l)
    ]
  ]

  kv-IsShelf :
      IsShelf stored place
        (λ path. has_infix (full path) not_found_text ≡ false)
        write
        read
        remove
        exists
  kv-IsShelf = record {
    exists_value = exists_value;
    exists_frame = exists_frame;
    read_value = λ path s c h. (read_value path s c h).0;
    read_frame = read_frame;
    write_value = λ path secret s h. elim (Result-cases (put path secret s).0) [
      | inr (e, x) ↦ cc (rw x at h)
      | inl (y, x) ↦ rw x (kv.put_value path secret s y x)
    ];
    write_frame = λ path secret s l. elim (Result-cases (put path secret s).0) [
      | inr (e, x) ↦ rw x (kv.put_frame path secret s l)
      | inl (y, x) ↦ rw x (kv.put_frame path secret s l)
    ];
    delete_value = λ path s h. elim (Result-cases (delete path s).0) [
      | inr (e, x) ↦ cc (rw x at h)
      | inl (y, x) ↦ rw x (kv.delete_value path s y x)
    ];
    delete_frame = λ path s l. elim (Result-cases (delete path s).0) [
      | inr (e, x) ↦ rw x (kv.delete_frame path s l)
      | inl (y, x) ↦ rw x (kv.delete_frame path s l)
    ];
  }

module _ {S C L : Type 0} (api : VaultApi S C) (stored : S → L → Option SecretData)
    (place : String → L) where
  -- The engine at the mount is of the version that the backend takes it for: the calls are those of
  -- the KV version 2 client, by mount and path, or of the logical interface, by full path.
  abbrev pub IsMounted : VaultBackend C → Type 0
  IsMounted v =
      if v.is_kv_v2
      then IsKv stored place kv_content (api.kv2_get v.client v.mount_path)
          (api.kv2_put v.client v.mount_path) (api.kv2_delete_metadata v.client v.mount_path)
      else IsKv stored place content_of (λ path. api.logical_read v.client (build_path v path))
          (λ path. api.logical_write v.client (build_path v path))
          (λ path. api.logical_delete v.client (build_path v path))

  -- A path whose full path does not itself contain the text "secret not found".
  abbrev pub IsPlain : VaultBackend C → String → Type 0
  IsPlain v path = has_infix (build_path v path) not_found_text ≡ false

  pub vault-IsShelf :
      (v2 : Bool) (c : C) (mount : String)
      → let v : VaultBackend C = record { client = c; mount_path = mount; is_kv_v2 = v2 } in
        IsMounted v
        → IsShelf stored place
            (IsPlain v)
            (write_secret api v)
            (read_secret api v)
            (delete_secret api v)
            (secret_exists api v)
  unfolding write_secret read_secret delete_secret secret_exists
  vault-IsShelf true c mount kv =
      kv-IsShelf kv (build_path (record { client = c; mount_path = mount; is_kv_v2 = true }))
        kv_payload kv_payload_value kv_payload_missing
  vault-IsShelf false c mount kv =
      kv-IsShelf kv (build_path (record { client = c; mount_path = mount; is_kv_v2 = false }))
        logical_payload logical_payload_value logical_payload_missing
