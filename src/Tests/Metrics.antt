-- ===== src/Tests/Metrics.antt =====
-- The collector of `Metrics` on a registry that is the list of the names registered.
use bmc_secret_operator.Base.{◌≡◌, refl, String, false, Option, none, some, List, [], ◌∷◌, ◌++◌}
use bmc_secret_operator.Base.{any, ◌==◌, if◌then◌else◌, map, errorf}
use bmc_secret_operator.Metrics.Collector.{
  Opts, opts, Process, Call, new_collector, register_all, perform_all, operated, operated_on_engine,
  synced, extracted,
}
use bmc_secret_operator.Metrics.Once.{IsRegisterer, new_collector-again}
use bmc_secret_operator.Metrics.Fits.{Fits, perform_all-Fits}
use bmc_secret_operator.Metrics.Accounts.{Agrees, perform_all-Agrees}

abbrev register : Opts → List String → Option (List String)
register o taken = if any (λ y. y == o.name) taken then none else some (taken ++ o.name ∷ [])

register-IsRegisterer : IsRegisterer register (λ taken. taken)
register-IsRegisterer = record {
  accepts = λ o taken new. (taken ++ o.name ∷ [], rw new refl, refl);
  refuses = λ o taken old. rw old refl;
}

-- The default registry has collectors of its own.
abbrev fresh : Process (List String)
fresh = record {
  once = false;
  instance_ = none;
  registry = "go_goroutines" ∷ "process_open_fds" ∷ [];
}

new_collector-again_example :
    (c : List Opts) × (p : Process (List String)) × (new_collector register fresh
      ≡ some (some c, p))
    × (p.registry ≡ fresh.registry ++ map (λ o. o.name) c)
    × (new_collector register p ≡ some (some c, p))
    × (register_all register c p.registry ≡ none)
unfolding opts
new_collector-again_example =
    new_collector-again register (λ taken. taken) register-IsRegisterer fresh refl
      (
        refl,
        (
          refl,
          (
            refl,
            (refl, (refl, (refl, (refl, (refl, (refl, (refl, (refl, (refl, (refl, tt)))))))))),
          ),
        ),
      )

abbrev calls : List Call
calls =
    operated "write" "vault" 12 none
    ∷ operated_on_engine "read" "vault" "team" 3 (some (errorf "dial tcp"))
    ∷ synced "secret" 2 0 100
    ∷ extracted "secret" none
    ∷ []

perform_all-Fits_example : Fits (perform_all calls []).1
perform_all-Fits_example = perform_all-Fits calls [] tt

perform_all-Agrees_example : Agrees "write" "vault" (perform_all calls []).1
perform_all-Agrees_example =
    perform_all-Agrees "write" "vault" calls []
      (record { each_is_timed = refl; each_error_is_classified = refl })
