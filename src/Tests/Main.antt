-- ===== src/Tests/Main.antt =====
-- The program of cmd/main.go on the server of `Server`, and what it makes of its flags.
use bmc_secret_operator.Base.{
  ◌≡◌, refl, String, ◌==◌, if◌then◌else◌, some, [], ◌∷◌, ok, err, errorf, Error, map, Result, none,
}
use bmc_secret_operator.Base.Effect.{Eff, ◌>>◌, ignore, pure}
use bmc_secret_operator.Config.{load_config_from_crd, load_config_from_env}
use bmc_secret_operator.Factory.{World, Deps, ensure_config, load_config, outside}
use bmc_secret_operator.Factory.Getters.{get_backend, get_sync_label}
use bmc_secret_operator.Factory.Release.{close}
use bmc_secret_operator.Reconciler.Setup.{setup_with_manager, event_filter}
use bmc_secret_operator.Interface.Manager.{Controller}
use bmc_secret_operator.ConfigReconciler
use bmc_secret_operator.Main.{Manager, returned, exited, run, main}
use bmc_secret_operator.Main.Options.{
  default_flags, manager_options, TlsOption, disable_http2, with_authentication_and_authorization,
}
use bmc_secret_operator.Main.Startup.{IsClosed, main-returned, main-unreadable}
use bmc_secret_operator.Tests.Server.{Contents, deps, world}

-- A manager whose run creates the backend, as the first reconciled secret does.
abbrev manager : Manager (World Contents String)
manager = record {
  new_collector = pure tt;
  new_manager = λ options. pure (ok tt);
  complete = λ controller. pure (ok tt);
  add_healthz_check = λ name. pure (ok tt);
  add_readyz_check = λ name. pure (ok tt);
  start = ignore (get_backend deps) >> pure (ok tt);
}

starts : (main deps manager default_flags world).0 ≡ returned
unfolding main run manager_options setup_with_manager ConfigReconciler.setup_with_manager
    get_sync_label ensure_config load_config outside load_config_from_crd close
starts = refl

main-returned_example : IsClosed deps manager (main deps manager default_flags world).1
main-returned_example = main-returned deps manager default_flags world starts

-- The client of a manager that has not been started cannot read.
abbrev unread : Error
unread = errorf "the cache is not started, can not read objects"

abbrev unstarted : Deps Contents String
unstarted = record deps { get_config = λ name. pure (err unread) }

main-unreadable_example :
    ((main unstarted manager default_flags world).0 ≡ exited 1)
    × (main unstarted (record manager { start = pure (err unread) }) default_flags world
        ≡ main unstarted manager default_flags world)
unfolding load_config_from_env
main-unreadable_example =
    main-unreadable unstarted manager (pure (err unread)) default_flags world unread
      (errorf "VAULT_ADDR environment variable is required") refl refl

abbrev configured : Deps Contents String
configured = record unstarted {
  getenv = λ key. if key == "VAULT_ADDR" then "https://vault" else "";
}

-- The resource's label is "sync" and the environment has none: a manager that refuses every event
-- filter.
abbrev strict : Controller → Eff (World Contents String) (Result (Unit {0}))
strict c = elim c.event_filter [ none ↦ pure (ok tt) | some passes ↦ pure (err unread) ]

-- By default neither server speaks HTTP/2, and the metrics are served to authorised clients only.
default_options :
    let options = manager_options default_flags in
    (map
        (λ (o : TlsOption). (o (record { next_protos = "h2" ∷ [] })).next_protos)
        options.metrics.tls_opts
      ≡ ("http/1.1" ∷ []) ∷ [])
    × (map
          (λ (o : TlsOption). (o (record { next_protos = "h2" ∷ [] })).next_protos)
          options.webhook_server.tls_opts
        ≡ ("http/1.1" ∷ []) ∷ [])
    × (options.metrics.filter_provider ≡ some with_authentication_and_authorization)
unfolding manager_options disable_http2
default_options = (refl, refl, refl)
