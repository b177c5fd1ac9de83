-- ===== src/Backend/Stores.antt =====
-- What each backend value of the operator promises, given the KV engine that it stands on.
use bmc_secret_operator.Base.{◌≡◌, refl, ap, ◌∙◌, String, Option, some, Error}
use bmc_secret_operator.Base.{ℕ, inl, inr, Option-cases}
use bmc_secret_operator.Base.Effect.{Eff}
use bmc_secret_operator.Interface.{MetricsCollector, SecretData}
use bmc_secret_operator.Interface.Store.{IsQuiet}
use bmc_secret_operator.Vault.Client.{VaultApi}
use bmc_secret_operator.Backend.{
  Backend, vault, open_bao, instrumented, instrumented_with_engine, record_operation,
  record_operation_with_engine, write_secret, read_secret, delete_secret, secret_exists,
}
use bmc_secret_operator.Vault.Mounted.{IsMounted, IsPlain, vault-IsShelf}
use bmc_secret_operator.Backend.Shelf.{IsShelf}
use bmc_secret_operator.Backend.Timed.{timed-IsShelf}

-- The collector's methods have nothing to do with the places.
pub record IsQuietCollector {S L : Type 0} (c : MetricsCollector S)
    (stored : S → L → Option SecretData) : Type 0 where
  pub operation_quiet :
      (record_op : String → String → ℕ → Option Error → Eff S (Unit {0}))
      → c.record_backend_operation ≡ some record_op
      → (operation backend_type : String) (n : ℕ) (e : Option Error)
      → IsQuiet stored (record_op operation backend_type n e)
  pub engine_quiet :
      (record_op : String → String → String → ℕ → Option Error → Eff S (Unit {0}))
      → c.record_backend_operation_with_engine ≡ some record_op
      → (operation backend_type engine : String) (n : ℕ) (e : Option Error)
      → IsQuiet stored (record_op operation backend_type engine n e)

module _ {S C L : Type 0} (api : VaultApi S C) (stored : S → L → Option SecretData)
    (place : String → L) where
  -- What a backend value, wrapped or not, stands on.
  abbrev pub IsServed : Backend C → Type 0
  IsServed (vault v) = IsMounted api stored place v
  IsServed open_bao = Unit
  IsServed (instrumented b backend_type) = IsServed b
  IsServed (instrumented_with_engine b backend_type engine) = IsServed b

  -- The paths at which its existence test is relied on.
  abbrev pub IsPlainFor : Backend C → String → Type 0
  IsPlainFor (vault v) path = IsPlain api stored place v path
  IsPlainFor open_bao path = Unit
  IsPlainFor (instrumented b backend_type) path = IsPlainFor b path
  IsPlainFor (instrumented_with_engine b backend_type engine) path = IsPlainFor b path

module _ {S C L : Type 0} (api : VaultApi S C) (stored : S → L → Option SecretData)
    (now_quiet : IsQuiet stored api.now) (collector : Option (MetricsCollector S))
    (quiet : (c : MetricsCollector S) → collector ≡ some c → IsQuietCollector c stored) where
  record_operation-IsQuiet :
      (operation backend_type : String) (n : ℕ) (e : Option Error)
      → IsQuiet stored (record_operation api collector operation backend_type n e)
  unfolding record_operation
  record_operation-IsQuiet operation backend_type n e s l = elim (Option-cases collector) [
    | inl x ↦ rw (x, record_operation) refl
    | inr (c, x) ↦ elim (Option-cases c.record_backend_operation) [
      | inl y ↦ rw (x, y, record_operation) refl
      | inr (record_op, y) ↦
          rw (x, y, record_operation)
            ((quiet c x).operation_quiet record_op y operation backend_type n e s l)
    ]
  ]

  record_operation_with_engine-IsQuiet :
      (operation backend_type engine : String) (n : ℕ) (e : Option Error)
      → IsQuiet stored
          (record_operation_with_engine api collector operation backend_type engine n e)
  unfolding record_operation_with_engine
  record_operation_with_engine-IsQuiet operation backend_type engine n e s l =
      elim (Option-cases collector) [
        | inl x ↦ rw (x, record_operation_with_engine) refl
        | inr (c, x) ↦ elim (Option-cases c.record_backend_operation_with_engine) [
          | inl y ↦
              let same : record_operation_with_engine api collector operation backend_type engine n
                    e
                  ≡ record_operation api collector operation backend_type n e =
                rw (x, y, record_operation_with_engine)
                  (ap (λ o. record_operation api o operation backend_type n e) x) in
              ap (λ (m : Eff S (Unit {0})). stored (m s).1 l) same
              ∙ record_operation-IsQuiet operation backend_type n e s l
          | inr (record_op, y) ↦
              rw (x, y, record_operation_with_engine)
                ((quiet c x).engine_quiet record_op y operation backend_type engine n e s l)
        ]
      ]

  pub backend-IsShelf :
      (place : String → L) (b : Backend C)
      → IsServed api stored place b
      → IsShelf stored place
          (IsPlainFor api stored place b)
          (write_secret api collector b)
          (read_secret api collector b)
          (delete_secret api collector b)
          (secret_exists api collector b)
  unfolding write_secret read_secret delete_secret secret_exists
  backend-IsShelf place (vault v) served =
      vault-IsShelf api stored place v.is_kv_v2 v.client v.mount_path served
  backend-IsShelf place open_bao served = record {
    exists_value = λ path s e plain h. cc;
    exists_frame = λ path s l. refl;
    read_value = λ path s content h. cc;
    read_frame = λ path s l. refl;
    write_value = λ path content s h. cc;
    write_frame = λ path content s l. inl refl;
    delete_value = λ path s h. cc;
    delete_frame = λ path s l. inl refl;
  }
  backend-IsShelf place (instrumented b backend_type) served =
      timed-IsShelf api collector stored now_quiet place (IsPlainFor api stored place b)
        (write_secret api collector b) (read_secret api collector b) (delete_secret api collector b)
        (secret_exists api collector b) (backend-IsShelf place b served)
        (λ operation. record_operation api collector operation backend_type)
        (λ operation. record_operation-IsQuiet operation backend_type)
  backend-IsShelf place (instrumented_with_engine b backend_type engine) served =
      timed-IsShelf api collector stored now_quiet place (IsPlainFor api stored place b)
        (write_secret api collector b) (read_secret api collector b) (delete_secret api collector b)
        (secret_exists api collector b) (backend-IsShelf place b served)
        (λ operation. record_operation_with_engine api collector operation backend_type engine)
        (λ operation. record_operation_with_engine-IsQuiet operation backend_type engine)
