-- ===== src/Reconciler/Setup.antt =====
-- `SetupWithManager`: the event filter and the controller, and `findBMCSecretsForBMC`.
use bmc_secret_operator.Base.{String, Bool, true, false, Option, none, some, ◌==◌}
use bmc_secret_operator.Base.{List, [], ◌∷◌, Result, err, wrap, if◌then◌else◌}
use bmc_secret_operator.Base.Effect.{Eff, attempt, pure}
use bmc_secret_operator.Base.Dict.{Dict, find}
use bmc_secret_operator.Api.Metal.{Bmc}
use bmc_secret_operator.Interface.Manager.{Controller}

-- The predicate on an object's labels, nil labels included.
unfoldable pub label_predicate : String → Option (Dict String) → Bool
label_predicate sync_label labels = elim (find sync_label labels) [ none ↦ false | some _ ↦ true ]

-- No predicate if no label is configured.
unfoldable pub event_filter : String → Option (Option (Dict String) → Bool)
event_filter sync_label = if sync_label == "" then none else some (label_predicate sync_label)

-- What the filter makes of the labels of an object of any of the controller's watches.
unfoldable pub event_passes : String → Option (Dict String) → Bool
unfolding event_filter label_predicate
event_passes sync_label labels = elim (event_filter sync_label) [
  | none ↦ true
  | some passes ↦ passes labels
]

-- The requests that an event on a BMC makes, by the name of the BMCSecret.
unfoldable pub find_bmc_secrets_for_bmc : Bmc → List String
find_bmc_secrets_for_bmc bmc = bmc.bmc_secret_ref ∷ []

abbrev pub controller : String → Controller
controller sync_label = record {
  reconciled = "BMCSecret";
  event_filter = event_filter sync_label;
  watched_bmcs = some find_bmc_secrets_for_bmc;
}

module _ {S : Type 0} (get_sync_label : Eff S (Result String))
    (complete : Controller → Eff S (Result (Unit {0}))) where
  unfoldable pub setup_with_manager : Eff S (Result (Unit {0}))
  setup_with_manager =
      attempt get_sync_label (λ e. pure (err (wrap "failed to get sync label configuration" e)))
        (λ sync_label. complete (controller sync_label))
