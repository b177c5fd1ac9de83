-- ===== src/Tests/Converges.antt =====
-- A run of `World` in single-engine mode, from a backend that holds something else.
use bmc_secret_operator.Base.{Bool, ◌≡◌, refl, String, ◌<>◌, true, false, [], ◌∷◌, ok}
use bmc_secret_operator.Base.Effect.{pure}
use bmc_secret_operator.Base.Dict.{lookup}
use bmc_secret_operator.PathBuilder.{PathVariables, build}
use bmc_secret_operator.Interface.{str, BackendFactoryInterface}
use bmc_secret_operator.Resolver.{extract_credentials}
use bmc_secret_operator.Reconciler.{BmcSecretReconciler, done, requeue_after_normal}
use bmc_secret_operator.Reconciler.Quiet.{IsQuietAround}
use bmc_secret_operator.Reconciler.Deletion.{contains_finalizer}
use bmc_secret_operator.Reconciler.Sync.Again.{IsHealthy}
use bmc_secret_operator.Reconciler.Reconcile.{reconcile, ensure_finalizer, lacks_sync_label}
use bmc_secret_operator.Reconciler.Reconcile.Converges.{reconcile-AllHave, reconcile-EnginesHave}
use bmc_secret_operator.Reconciler.Reconcile.Converges.Setting.{
  Situation, IsAnswered, IsServing, IsSingle, IsMulti, AllHave, EnginesHave, mine,
}
use bmc_secret_operator.Tests.World.{
  World, engine, bmc, secret, path_builder, admin_path, reconciler, contents, place, store, around,
  healthy,
}

abbrev single : BmcSecretReconciler World Bool
single = record (reconciler secret true) {
  backend_factory = record (reconciler secret true).backend_factory {
    has_multi_engine_config = pure (ok false);
  };
}

single-IsQuietAround : IsQuietAround single contents
single-IsQuietAround =
    let old = around secret true in
    record {
      get_secret_quiet = old.get_secret_quiet;
      update_quiet = old.update_quiet;
      list_quiet = old.list_quiet;
      get_status_quiet = old.get_status_quiet;
      create_status_quiet = old.create_status_quiet;
      update_status_quiet = old.update_status_quiet;
      delete_status_quiet = old.delete_status_quiet;
      event_quiet = old.event_quiet;
      get_backend_quiet = old.get_backend_quiet;
      get_path_builder_quiet = old.get_path_builder_quiet;
      get_region_label_key_quiet = old.get_region_label_key_quiet;
      get_sync_label_quiet = old.get_sync_label_quiet;
      get_engine_backends_quiet = old.get_engine_backends_quiet;
      has_multi_engine_config_quiet = λ w l. refl;
      now_quiet = old.now_quiet;
      metrics_quiet = old.metrics_quiet;
    }

single-IsHealthy : IsHealthy single place contents true
single-IsHealthy = record {
  exists_returns = (healthy true).exists_returns;
  read_returns = (healthy true).read_returns;
}

abbrev situation : Situation
situation = record {
  name = "bmc-1";
  read = secret;
  updated = secret;
  bmcs = bmc ∷ [];
  sync_label = "sync";
  region_label_key = "region";
  username = "admin";
  password = "secret";
}

built : (vars : PathVariables) → (path : String) × (build path_builder vars ≡ ok path)
unfolding build
built vars =
    ("bmc/" <> (vars.region <> ("/" <> (vars.hostname <> ("/" <> (vars.username <> ""))))), refl)

answered :
    (factory : BackendFactoryInterface World Bool)
    → ((w : World) → (factory.get_sync_label w).0 ≡ ok "sync")
    → ((w : World) → (factory.get_region_label_key w).0 ≡ ok "region")
    → IsAnswered (record (reconciler secret true) { backend_factory = factory }) situation
unfolding lacks_sync_label ensure_finalizer contains_finalizer extract_credentials lookup
answered factory label key = record {
  is_read = λ w. refl;
  label_is_read = label;
  is_labelled = refl;
  is_live = refl;
  is_finalized = λ w. refl;
  is_listed = λ w. refl;
  is_complete = refl;
  key_is_got = key;
}

serving : (b : Bool) → IsServing (reconciler secret true) place contents b path_builder
serving b = record { is_healthy = healthy b; is_built = built; is_written = λ path content w. refl }

single-IsSingle : IsSingle single place contents true path_builder
single-IsSingle = record {
  is_single = λ w. refl;
  backend_is_got = λ w. refl;
  builder_is_got = λ w. refl;
  is_serving = record {
    is_healthy = single-IsHealthy;
    is_built = built;
    is_written = λ path content w. refl;
  };
}

abbrev before : World
before = ((admin_path, ("password", str "old") ∷ []) ∷ [], [])

reconcile-AllHave_example :
    let after = reconcile single "bmc-1" before in
    (after.0 ≡ done requeue_after_normal)
    × AllHave place contents situation true path_builder (mine situation) after.1
reconcile-AllHave_example =
    reconcile-AllHave single store single-IsQuietAround situation
      (answered single.backend_factory (λ w. refl) (λ w. refl)) true path_builder single-IsSingle
      before

several-IsMulti : IsMulti (reconciler secret true) place contents situation (engine ∷ [])
several-IsMulti = record {
  is_multi = λ w. refl;
  engines_are_got = λ w. refl;
  engines_are_some = refl;
  are_serving = (serving false, tt);
}

reconcile-EnginesHave_example :
    let after = reconcile (reconciler secret true) "bmc-1" before in
    (after.0 ≡ done requeue_after_normal)
    × EnginesHave place contents situation (engine ∷ []) (mine situation) after.1
reconcile-EnginesHave_example =
    reconcile-EnginesHave (reconciler secret true) store (around secret true) situation
      (answered (reconciler secret true).backend_factory (λ w. refl) (λ w. refl)) (engine ∷ [])
      several-IsMulti before
