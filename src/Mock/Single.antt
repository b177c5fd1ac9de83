-- ===== src/Mock/Single.antt =====
-- `MockBackendFactory` of internal/controller/mock/mock_backend.go, on the one mock backend that the
-- state holds.
use bmc_secret_operator.Base.{
  String, Bool, false, Option, none, some, List, [], Error, Result, ok, err, ◌>>=?◌,
}
use bmc_secret_operator.Base.Effect.{pure}
use bmc_secret_operator.PathBuilder.{PathBuilder, Template, new_path_builder}
use bmc_secret_operator.Interface.{BackendFactoryInterface, EngineBackend}
use bmc_secret_operator.Mock
use bmc_secret_operator.Mock.{MockBackend}

pub record MockBackendFactory : Type 0 where
  pub path_builder : PathBuilder
  pub region_label_key : String
  pub sync_label : String
  pub get_backend_err : Option Error
  pub engine_backends : List (EngineBackend (Unit {0}))
  pub has_multi_engine : Bool
  pub multi_engine_err : Option Error
  pub engine_backend_err : Option Error

unfoldable pub new_mock_backend_factory :
    (String → Result Template) → String → String → String → Result MockBackendFactory
new_mock_backend_factory parse path_template region_label_key sync_label =
    new_path_builder parse path_template >>=? λ path_builder. ok (record {
      path_builder = path_builder;
      region_label_key = region_label_key;
      sync_label = sync_label;
      get_backend_err = none;
      engine_backends = [];
      has_multi_engine = false;
      multi_engine_err = none;
      engine_backend_err = none;
    })

-- A value, unless an error is configured.
abbrev unless {ℓ} : {A : Type ℓ} → Option Error → A → Result A
unless (some e) a = err e
unless none a = ok a

abbrev pub factory_methods : MockBackendFactory → BackendFactoryInterface MockBackend (Unit {0})
factory_methods f = record {
  get_backend = pure (unless f.get_backend_err tt);
  get_path_builder = pure (ok f.path_builder);
  get_region_label_key = pure (ok f.region_label_key);
  get_sync_label = pure (ok f.sync_label);
  get_engine_backends = λ labels. pure (unless f.engine_backend_err f.engine_backends);
  has_multi_engine_config = pure (unless f.multi_engine_err f.has_multi_engine);
  invalidate_cache = pure (ok tt);
  close = Mock.close;
}
