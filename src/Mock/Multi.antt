-- ===== src/Mock/Multi.antt =====
-- `MultiEngineBackendFactory` of internal/controller/mock/mock_multi_engine.go. `B` is the type of
-- pointers to mock backends, and `S` the state that holds the backends.
use bmc_secret_operator.Base.{
  String, ◌<>◌, Bool, not, Option, none, some, ◌==◌, List, [], ◌∷◌, length, ltb, ◌=ℕ◌,
}
use bmc_secret_operator.Base.{Error, Result, ok, err, errorf, wrap, if◌then◌else◌}
use bmc_secret_operator.Base.Effect.{Eff, ◌>>=◌, attempt, pure}
use bmc_secret_operator.Base.Dict.{Dict, find, lookup, insert}
use bmc_secret_operator.Api.Config.{SecretEngineConfig}
use bmc_secret_operator.PathBuilder.{PathBuilder, Template, new_path_builder, default_template}
use bmc_secret_operator.Interface.{BackendFactoryInterface, EngineBackend}
use bmc_secret_operator.Config.{or_default}
use bmc_secret_operator.MultiEngine.{parse_sync_label}
use bmc_secret_operator.Mock.Engines.{matches_label}

pub record MultiEngineBackendFactory (B : Type 0) : Type 0 where
  pub backends : Dict B
  pub engines : List SecretEngineConfig
  pub global_sync_label : String
  pub path_builders : Dict PathBuilder
  pub region_label_key : String
  pub get_backend_err : Option Error
  pub get_engine_err : Option Error

module _ {S B : Type 0} (new_mock_backend : Eff S B) (parse : String → Result Template) where
  -- The loop over the engines: it ends at the first template that is refused.
  unfoldable pub add_engines :
      List SecretEngineConfig
      → MultiEngineBackendFactory B
      → Eff S (Result (MultiEngineBackendFactory B))
  add_engines [] f = pure (ok f)
  add_engines (engine ∷ rest) f = new_mock_backend >>= λ backend.
      attempt (pure (new_path_builder parse (or_default engine.path_template default_template)))
        (λ e. pure (err (wrap ("failed to create path builder for engine " <> engine.name) e)))
        (λ path_builder. add_engines rest (record f {
          backends = insert engine.name backend f.backends;
          path_builders = insert engine.name path_builder f.path_builders;
        }))

  unfoldable pub new_multi_engine_backend_factory :
      List SecretEngineConfig → String → String → Eff S (Result (MultiEngineBackendFactory B))
  new_multi_engine_backend_factory engines global_sync_label region_label_key =
      add_engines engines (record {
        backends = [];
        engines = engines;
        global_sync_label = global_sync_label;
        path_builders = [];
        region_label_key = region_label_key;
        get_backend_err = none;
        get_engine_err = none;
      })

-- Go's order of a map is not fixed: `pick` gives the first entry of a range over it, if there is one.
abbrev first_of : {A : Type 0} → (Dict A → Option A) → Dict A → String → Result A
first_of pick entries message =
    if length entries =ℕ 0
    then err (errorf message)
    else elim (pick entries) [ some a ↦ ok a | none ↦ err (errorf message) ]

module _ {B : Type 0} (f : MultiEngineBackendFactory B) where
  unfoldable pub get_backend : (Dict B → Option B) → Result B
  get_backend pick = elim f.get_backend_err [
    | some e ↦ err e
    | none ↦ first_of pick f.backends "no backends available"
  ]

  unfoldable pub get_path_builder : (Dict PathBuilder → Option PathBuilder) → Result PathBuilder
  get_path_builder pick = first_of pick f.path_builders "no path builders available"

  unfoldable pub get_path_builder_for_engine : String → Result PathBuilder
  get_path_builder_for_engine engine_name = elim (lookup engine_name f.path_builders) [
    | none ↦ err (errorf ("path builder not found for engine " <> engine_name))
    | some builder ↦ ok builder
  ]

  unfoldable pub get_backend_for_engine : String → Result B
  get_backend_for_engine engine_name = elim f.get_backend_err [
    | some e ↦ err e
    | none ↦ elim (lookup engine_name f.backends) [
      | none ↦ err (errorf ("backend not found for engine " <> engine_name))
      | some backend ↦ ok backend
    ]
  ]

  -- The loop of `GetMatchingEngines`.
  unfoldable pub matching : Option (Dict String) → List SecretEngineConfig → List SecretEngineConfig
  matching labels [] = []
  matching labels (engine ∷ rest) =
      if matches_label labels engine.sync_label
      then engine ∷ matching labels rest
      else matching labels rest

  unfoldable pub get_matching_engines : Option (Dict String) → Result (List SecretEngineConfig)
  unfolding matching
  get_matching_engines labels = elim f.get_engine_err [
    | some e ↦ err e
    | none ↦
        if f.global_sync_label == ""
        then ok (matching labels f.engines)
        else elim (find f.global_sync_label labels) [
          | none ↦ ok []
          | some _ ↦ ok (matching labels f.engines)
        ]
  ]

  -- What a round of `GetEngineBackends` makes of an engine, if both maps have it. The file's own
  -- `parseSyncLabel` cuts at the first '=' too.
  unfoldable pub engine_backend : SecretEngineConfig → Option (EngineBackend B)
  engine_backend engine = elim (lookup engine.name f.backends) [
    | none ↦ none
    | some backend ↦ elim (lookup engine.name f.path_builders) [
      | none ↦ none
      | some path_builder ↦ some (record {
        backend = backend;
        engine_name = engine.name;
        path_builder = path_builder;
        sync_label = engine.sync_label;
        sync_label_key = (parse_sync_label engine.sync_label).0;
        sync_label_val = (parse_sync_label engine.sync_label).1;
      })
    ]
  ]

  -- Its loop.
  unfoldable pub engine_backends :
      Option (Dict String) → List SecretEngineConfig → List (EngineBackend B)
  engine_backends labels [] = []
  engine_backends labels (engine ∷ rest) =
      let others = engine_backends labels rest in
      if not (matches_label labels engine.sync_label)
      then others
      else elim (engine_backend engine) [ none ↦ others | some eb ↦ eb ∷ others ]

  unfoldable pub get_engine_backends : Option (Dict String) → Result (List (EngineBackend B))
  unfolding engine_backends
  get_engine_backends labels = elim f.get_engine_err [
    | some e ↦ err e
    | none ↦ ok (engine_backends labels f.engines)
  ]

  unfoldable pub has_multi_engine_config : Result Bool
  has_multi_engine_config = ok (ltb 0 (length f.engines))

  unfoldable pub get_mock_backend_for_engine : String → Option B
  get_mock_backend_for_engine engine_name = lookup engine_name f.backends

  unfoldable pub get_all_mock_backends : Dict B
  get_all_mock_backends = f.backends

  unfoldable pub get_secret_engines : Result (List SecretEngineConfig)
  get_secret_engines = ok f.engines

-- The loop of `Close`, over the entries in the order in which they are met.
unfoldable pub close_all :
    {S B : Type 0} → (B → Eff S (Result (Unit {0}))) → Dict B → Eff S (Result (Unit {0}))
close_all close [] = pure (ok tt)
close_all close ((engine_name, backend) ∷ rest) =
    attempt (close backend)
      (λ e. pure (err (wrap ("failed to close backend for engine " <> engine_name) e)))
      (λ _. close_all close rest)

abbrev pub methods :
    {S B : Type 0}
    → (Dict B → Option B)
    → (Dict PathBuilder → Option PathBuilder)
    → (B → Eff S (Result (Unit {0})))
    → MultiEngineBackendFactory B
    → BackendFactoryInterface S B
methods pick pick_builder close f = record {
  get_backend = pure (get_backend f pick);
  get_path_builder = pure (get_path_builder f pick_builder);
  get_region_label_key = pure (ok f.region_label_key);
  get_sync_label = pure (ok f.global_sync_label);
  get_engine_backends = λ labels. pure (get_engine_backends f labels);
  has_multi_engine_config = pure (has_multi_engine_config f);
  invalidate_cache = pure (ok tt);
  close = close_all close f.backends;
}
