-- ===== src/Tests/Mocks.antt =====
-- The test factory for two secret engines, whose backends are numbered.
use bmc_secret_operator.Base.{ℕ, ◌+◌, ◌≡◌, refl, none, List, [], ◌∷◌, ok}
use bmc_secret_operator.Base.Dict.{insert}
use bmc_secret_operator.Base.Effect.{Eff}
use bmc_secret_operator.Api.Config.{SecretEngineConfig}
use bmc_secret_operator.PathBuilder.{text, new_path_builder}
use bmc_secret_operator.Mock.Multi.{
  MultiEngineBackendFactory, add_engines, new_multi_engine_backend_factory,
}

abbrev engines : List SecretEngineConfig
engines =
    record { name = "a"; mount_path = "team-a"; path_template = ""; sync_label = "sync=yes" }
    ∷ record { name = "b"; mount_path = "team-b"; path_template = "bmc"; sync_label = "critical" }
    ∷ []

abbrev next_number : Eff ℕ ℕ
next_number n = (n, n + 1)

abbrev factory : MultiEngineBackendFactory ℕ
factory = record {
  backends = ("a", 0) ∷ ("b", 1) ∷ [];
  engines = engines;
  global_sync_label = "";
  path_builders =
      ("a", record { template = text "bmc/{{.Region}}/{{.Hostname}}/{{.Username}}" ∷ [] })
      ∷ ("b", record { template = text "bmc" ∷ [] })
      ∷ [];
  region_label_key = "region";
  get_backend_err = none;
  get_engine_err = none;
}

factory_made :
    new_multi_engine_backend_factory next_number (λ t. ok (text t ∷ [])) engines "" "region" 0
    ≡ (ok factory, 2)
unfolding new_multi_engine_backend_factory add_engines new_path_builder insert
factory_made = refl
