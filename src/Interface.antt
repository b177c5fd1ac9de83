-- ===== src/Interface.antt =====
-- internal/secretbackend/interface.go, and the types that its methods name. `S` is the state of the
-- whole system and `B` the type of backend values.
pub mod Store
pub mod Manager
use bmc_secret_operator.Base.{ℕ, String, Bool, Option, List, Error, Result}
use bmc_secret_operator.Base.Dict.{Dict}
use bmc_secret_operator.Base.Effect.{Eff}
use bmc_secret_operator.PathBuilder.{PathBuilder}

-- A value of Go's type `any`: a string, or a value of another dynamic type.
pub data Any : Type 0 where
  str : String → Any
  other : ℕ → Any

abbrev pub SecretData : Type 0
SecretData = Dict Any

pub record BackendInterface (S B : Type 0) : Type 0 where
  pub write_secret : B → String → SecretData → Eff S (Result (Unit {0}))
  pub read_secret : B → String → Eff S (Result (Option SecretData))
  pub delete_secret : B → String → Eff S (Result (Unit {0}))
  pub secret_exists : B → String → Eff S (Result Bool)
  pub close : B → Eff S (Result (Unit {0}))

-- multi_engine.go
pub record EngineBackend (B : Type 0) : Type 0 where
  pub backend : B
  pub engine_name : String
  pub path_builder : PathBuilder
  pub sync_label : String
  pub sync_label_key : String
  pub sync_label_val : String

pub record BackendFactoryInterface (S B : Type 0) : Type 0 where
  pub get_backend : Eff S (Result B)
  pub get_path_builder : Eff S (Result PathBuilder)
  pub get_region_label_key : Eff S (Result String)
  pub get_sync_label : Eff S (Result String)
  pub get_engine_backends : Option (Dict String) → Eff S (Result (List (EngineBackend B)))
  pub has_multi_engine_config : Eff S (Result Bool)
  pub invalidate_cache : Eff S (Result (Unit {0}))
  pub close : Eff S (Result (Unit {0}))

-- The metrics collector as the backends see it. The last two are methods that a type assertion
-- may find missing. Durations are differences of two readings of the clock; `none` is a nil error.
pub record MetricsCollector (S : Type 0) : Type 0 where
  pub record_auth : String → String → ℕ → Option Error → Eff S (Unit {0})
  pub record_backend_operation : Option (String → String → ℕ → Option Error → Eff S (Unit {0}))
  pub record_backend_operation_with_engine :
      Option (String → String → String → ℕ → Option Error → Eff S (Unit {0}))
