-- ===== src/Tests/Objects.antt =====
-- The theorems on the objects that the operator reads and writes, at work on those of `World`.
use mathlib.Core.List.{Memᴰ}
use bmc_secret_operator.Resolver.{matching_bmcs}
use bmc_secret_operator.Resolver.Discovery.{matching_bmcs-find_bmc_secrets_for_bmc}
use bmc_secret_operator.Reconciler.Setup.{find_bmc_secrets_for_bmc}
use bmc_secret_operator.Base.{
  ◌≡◌, ◌≢◌, refl, ◌↔◌, ◌⊎◌, ℕ, String, ◌<>◌, true, false, some, [], ◌∷◌, arith,
}
use bmc_secret_operator.Base.{◌==◌}
use bmc_secret_operator.Base.Text.{has_char}
use bmc_secret_operator.PathBuilder.{PathVariables, new_path_builder}
use bmc_secret_operator.PathBuilder.Parser.{parse}
use bmc_secret_operator.PathBuilder.Default.{default_builder, build-injective}
use bmc_secret_operator.Base.Dict.{find}
use bmc_secret_operator.Api.SyncStatus.{Condition, BmcSecretSyncStatus}
use bmc_secret_operator.Base.Text.{has_char}
use bmc_secret_operator.Resolver.{matching_bmcs}
use bmc_secret_operator.Reconciler.Reconcile.{lacks_sync_label}
use bmc_secret_operator.Reconciler.Reconcile.Gates.{event_passes-lacks_sync_label}
use bmc_secret_operator.Reconciler.Setup.{event_passes}
use bmc_secret_operator.Reconciler.Status.{next_status}
use bmc_secret_operator.Reconciler.Status.Conditions.{
  find_condition, HasUniqueTypes, partial_condition, next_status-synced, next_status-stale,
}
use bmc_secret_operator.MultiEngine.{parse_sync_label, matches_labels}
use bmc_secret_operator.MultiEngine.Labels.{parse_sync_label-print, matches_labels_iff}
use bmc_secret_operator.Tests.World.{none≢some, secret, bmc, engine, old_status}

event_passes-lacks_sync_label_example :
    (event_passes "sync" secret.labels ≡ false → lacks_sync_label "sync" secret ≡ true)
    × (((event_passes "sync" secret.labels ≡ true) × (lacks_sync_label "sync" secret ≡ true))
        ↔ ((("sync" == "") ≡ false) × (find "sync" secret.labels ≡ some "")))
event_passes-lacks_sync_label_example = event_passes-lacks_sync_label "sync" secret

next_status-synced_example :
    let new = (next_status old_status [] 7 8 3 3 0).status in
    HasUniqueTypes new.conditions
    × (new.backend_paths ≡ [])
    × (new.last_sync_attempt ≡ 7)
    × (new.total_paths ≡ 3)
    × (new.successful_paths ≡ 3)
    × (new.failed_paths ≡ 0)
    × ((c : Condition) × (find_condition "Synced" new.conditions ≡ some c)
        × ((c.status ≡ "True") ↔ (◌≡◌ {A = ℕ} 0 0)))
    × ((t : String)
        → "Synced" ≢ t
        → find_condition t new.conditions ≡ find_condition t old_status.status.conditions)
next_status-synced_example = next_status-synced old_status [] 7 8 3 3 0 (refl, tt)

-- A status on which no run has told anything.
abbrev untold : BmcSecretSyncStatus
untold = record old_status { status = record old_status.status { conditions = [] } }

next_status-stale_example :
    let first = next_status untold [] 7 8 3 1 2 in
    let second = (next_status first [] 17 18 3 2 1).status in
    (second.total_paths ≡ 3)
    × (second.successful_paths ≡ 2)
    × (second.failed_paths ≡ 1)
    × (find_condition "Synced" second.conditions ≡ some (partial_condition 1 8 3 1 2))
next_status-stale_example =
    next_status-stale untold [] [] 7 8 3 1 2 17 18 3 2 1 (λ c e. absurd (none≢some c e))
      (omega arith) (omega arith) (omega arith) (omega arith)

parse_sync_label-print_example :
    (parse_sync_label ("team" <> ("=" <> "a=b")) ≡ ("team", "a=b"))
    × (parse_sync_label "team" ≡ ("team", ""))
unfolding has_char
parse_sync_label-print_example = parse_sync_label-print "team" "a=b" refl

matches_labels_iff_example : (matches_labels engine secret.labels ≡ true) ↔ (
    (value : String) × (find "sync" secret.labels ≡ some value)
    × ((engine.sync_label_val ≡ "") ⊎ (value ≡ engine.sync_label_val)))
matches_labels_iff_example = matches_labels_iff engine secret.labels

matching_bmcs-find_bmc_secrets_for_bmc_example :
    Memᴰ bmc (matching_bmcs "bmc-1" (bmc ∷ []))
    ↔ (Memᴰ bmc (bmc ∷ []) × (find_bmc_secrets_for_bmc bmc ≡ "bmc-1" ∷ []))
matching_bmcs-find_bmc_secrets_for_bmc_example =
    matching_bmcs-find_bmc_secrets_for_bmc "bmc-1" (bmc ∷ []) bmc

abbrev variables : PathVariables
variables = record { region = "eu"; hostname = "node-1"; username = "admin" }

build-injective_example : variables ≡ variables
unfolding new_path_builder parse has_char
build-injective_example =
    build-injective default_builder variables variables refl refl refl refl refl refl
