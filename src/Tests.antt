-- ===== src/Tests.antt =====
-- The theorems at work on the system of `World`: two in-memory backends, one BMC and its secret.
mod World
mod Objects
mod Server
mod Main
mod Metrics
mod Factory
mod Vault
mod Truth
mod Mocks
mod Converges
mod Departs
mod Stores
mod Count
mod Settings
mod Unreported
mod Isolation
mod Login
mod Race
use mathlib.Core.List.{Memᴰ}
use bmc_secret_operator.Resolver.{matching_bmcs, extract_credentials}
use bmc_secret_operator.Resolver.Discovery.{
  matching_bmcs-find_bmc_secrets_for_bmc, extract_credentials_exact,
}
use bmc_secret_operator.Interface.{str}
use bmc_secret_operator.Reconciler.Reconcile.Writes.{reconcile-writes}
use bmc_secret_operator.Reconciler.Setup.{find_bmc_secrets_for_bmc}
use bmc_secret_operator.Base.{
  ◌≡◌, ap, ◌≢◌, refl, ◌≤◌, ◌<◌, ◌↔◌, ◌⊎◌, ℕ, String, ◌<>◌, Bool, true, false, Option, none, some,
  List, [], ◌∷◌, arith,
}
use bmc_secret_operator.Base.{All, any, length, ◌*◌, ◌==◌, Error, Result, ok, err, if◌then◌else◌}
use bmc_secret_operator.Base.Dict.{Dict, find, lookup, insert, erase}
use bmc_secret_operator.Api.Metal.{Bmc, BmcSecret}
use bmc_secret_operator.Api.SyncStatus.{BackendPath, Condition, BmcSecretSyncStatus}
use bmc_secret_operator.PathBuilder.{build, execute, render_node, render_field}
use bmc_secret_operator.Interface.{EngineBackend, SecretData}
use bmc_secret_operator.Base.Effect.{Eff, ◌>>=◌, ◌>>◌, pure}
use bmc_secret_operator.Base.Text.{has_char}
use bmc_secret_operator.Resolver.{
  extract_region_from_bmc, get_hostname_from_bmc, extract_credentials, or_empty,
  find_bmcs_for_secret, matching_bmcs,
}
use bmc_secret_operator.Reconciler.{BmcSecretReconciler, Exit, done, failed, bmc_secret_finalizer}
use bmc_secret_operator.Reconciler.Sync.{
  Job, Progress, no_progress, password_of, secret_data, needs_update, path_synced, path_failed,
  sync_bmc, sync_bmcs, sync_single, sync_engine, sync_engines,
}
use bmc_secret_operator.Reconciler.Sync.InPlace.{
  IsTrue, sync_single-AllTrue, IsEngineInPlace, sync_engines-IsInPlace,
}
use bmc_secret_operator.Reconciler.Sync.Again.{with_write, sync_single-again}
use bmc_secret_operator.Reconciler.Sync.Again.Engines.{sync_engines-again}
use bmc_secret_operator.Reconciler.Sync.Tally.{IsTally, sync_single-IsTally, sync_engines-IsTally}
use bmc_secret_operator.Reconciler.Sync.Password.{needs_update_exact}
use bmc_secret_operator.Reconciler.Deletion.{
  contains_finalizer, add_finalizer, remove_finalizer, release, record_duration, delete_secrets,
  delete_bmc, handle_deletion,
}
use bmc_secret_operator.Reconciler.Deletion.Finalizer.{
  remove_finalizer_exact, handle_deletion-releases,
}
use bmc_secret_operator.Reconciler.Deletion.Clears.{
  IsCleared, delete_secrets-clears, handle_deletion-keeps_engines,
}
use bmc_secret_operator.Reconciler.Reconcile.{lacks_sync_label, reconcile_body, reconcile}
use bmc_secret_operator.Reconciler.Reconcile.Exits.{IsExit, reconcile-IsExit}
use bmc_secret_operator.Reconciler.Reconcile.Gates.{
  reconcile_body-unfinalized, event_passes-lacks_sync_label,
}
use bmc_secret_operator.Reconciler.Setup.{event_passes}
use bmc_secret_operator.Reconciler.Status.{set_condition, next_status}
use bmc_secret_operator.Reconciler.Status.Conditions.{
  find_condition, says, HasUniqueTypes, find_condition-set_condition, set_condition-HasUniqueTypes,
  next_status-synced, next_status-stale,
}
use bmc_secret_operator.MultiEngine.{parse_sync_label, split_at_equals, matches_labels}
use bmc_secret_operator.MultiEngine.Labels.{parse_sync_label-print, matches_labels_iff}
use bmc_secret_operator.Mock.Engines.{matches_label}
use bmc_secret_operator.Mock.Agreement.{matches_label-matches_labels}
use bmc_secret_operator.Tests.World.{
  World as Shelves, contents, place, backends, secret, bmc, path_builder, admin_path, job, engine,
  update_refused, reconciler, store, around, healthy, read,
}

abbrev r : BmcSecretReconciler Shelves Bool
r = reconciler secret true

abbrev empty : Shelves
empty = ([], [])

abbrev filled : Shelves
filled = ((admin_path, secret_data job) ∷ [], (admin_path, secret_data job) ∷ [])

sync_engines-IsInPlace_example :
    All
      (IsEngineInPlace r store
        (λ _ _ _ _ w l. refl)
        job
        (bmc ∷ [])
        (sync_engines r job (bmc ∷ []) (engine ∷ []) no_progress empty).1)
      (engine ∷ [])
unfolding sync_engines sync_engine sync_bmcs sync_bmc build execute render_node render_field
    needs_update lookup extract_region_from_bmc get_hostname_from_bmc path_synced path_failed
sync_engines-IsInPlace_example =
    sync_engines-IsInPlace r store (λ _ _ _ _ w l. refl) job (bmc ∷ []) (engine ∷ []) empty refl

sync_single-AllTrue_example :
    let (p, s') = sync_single r true path_builder job (bmc ∷ []) empty in
    All (IsTrue place contents true "secret" s') p.backend_paths
sync_single-AllTrue_example =
    sync_single-AllTrue r store (λ _ _ _ _ w l. refl) job (bmc ∷ []) true path_builder empty

abbrev write_refused : Bool → String → SecretData → Eff Shelves (Result (Unit {0}))
write_refused b path content w = (err update_refused, w)

sync_single-again_example :
    let s1 = (sync_single r true path_builder job (bmc ∷ []) empty).1 in
    let later : Job = record job { sync_time = 9 } in
    let run = sync_single (with_write r write_refused) true path_builder later (bmc ∷ []) s1 in
    (run ≡ sync_single r true path_builder later (bmc ∷ []) s1)
    × (run.0.sync_errors ≡ 0)
    × ((l : Bool × String) → contents run.1 l ≡ contents s1 l)
unfolding sync_single sync_bmcs sync_bmc build execute render_node render_field needs_update lookup
    extract_region_from_bmc get_hostname_from_bmc path_synced path_failed
sync_single-again_example =
    sync_single-again r store (λ _ _ _ _ w l. refl) true (healthy true) path_builder job (bmc ∷ [])
      9 empty write_refused refl

sync_engines-again_example :
    let s1 = (sync_engines r job (bmc ∷ []) (engine ∷ []) no_progress empty).1 in
    let later : Job = record job { sync_time = 9 } in
    let run =
      sync_engines (with_write r write_refused) later (bmc ∷ []) (engine ∷ []) no_progress s1 in
    (run ≡ sync_engines r later (bmc ∷ []) (engine ∷ []) no_progress s1)
    × (run.0.sync_errors ≡ 0)
    × ((l : Bool × String) → contents run.1 l ≡ contents s1 l)
unfolding sync_engines sync_engine sync_bmcs sync_bmc build execute render_node render_field
    needs_update lookup extract_region_from_bmc get_hostname_from_bmc path_synced path_failed
sync_engines-again_example =
    sync_engines-again r store (λ _ _ _ _ w l. refl) (bmc ∷ []) job (engine ∷ []) 9 empty
      write_refused (healthy false, tt) refl

handle_deletion-releases_example :
    (s' : Shelves) × (handle_deletion r secret filled
      ≡ (release r secret >>= λ exit. record_duration r 7 >> pure exit) s')
unfolding contains_finalizer
handle_deletion-releases_example = handle_deletion-releases r secret filled refl

first_backend : (b : Bool) → Path (Result Bool) (ok true) (ok b) → ¬ (false ≡ b)
first_backend b got e = cc

handle_deletion-keeps_engines_example :
    contents (handle_deletion r secret filled).1 (false, admin_path)
    ≡ contents filled (false, admin_path)
handle_deletion-keeps_engines_example =
    handle_deletion-keeps_engines r store (around secret true) (false, admin_path)
      (λ b w got path e. first_backend b got (ap (λ l. l.0) e)) secret filled

reconcile-IsExit_example : IsExit (reconcile r "bmc-1" empty).0
reconcile-IsExit_example = reconcile-IsExit r "bmc-1" empty

needs_update_exact_example :
    (false ≡ false) ↔ (password_of (contents filled (true, admin_path)) ≡ some "secret")
unfolding needs_update lookup read
needs_update_exact_example = needs_update_exact r store true admin_path "secret" filled false refl

sync_engines-IsTally_example :
    IsTally (1 * 1) (sync_engines r job (bmc ∷ []) (engine ∷ []) no_progress empty).0
sync_engines-IsTally_example = sync_engines-IsTally r job (bmc ∷ []) (engine ∷ []) empty

reconcile-writes_example :
    let after = contents (reconcile r "bmc-1" empty).1 (true, admin_path) in
    (after ≡ none)
    ⊎ ((after ≡ none)
        ⊎ ((username : String) × (password : String) × (after
              ≡ some (("username", str username) ∷ ("password", str password) ∷ []))))
unfolding lookup
reconcile-writes_example =
    reconcile-writes r store (around secret true) "bmc-1" empty (true, admin_path)
