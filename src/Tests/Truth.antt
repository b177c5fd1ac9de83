-- ===== src/Tests/Truth.antt =====
-- The runs of `World` with a status update that refuses false counts.
use bmc_secret_operator.Base.{
  ◌≡◌, refl, [], ok, err, errorf, Result, String, count, ◌=ℕ◌, if◌then◌else◌,
}
use bmc_secret_operator.Base.{ℕ, true, arith}
use bmc_secret_operator.Base.Effect.{Eff, pure}
use bmc_secret_operator.Api.SyncStatus.{BmcSecretSyncStatus}
use bmc_secret_operator.Reconciler.Reconcile.{discover_and_sync}
use bmc_secret_operator.Reconciler.Reconcile.Truth.{with_update, IsTruthful}
use bmc_secret_operator.Reconciler.Reconcile.Reported.{discover_and_sync-agrees}
use bmc_secret_operator.Reconciler.Sync.Tally.{is_synced}
use bmc_secret_operator.Tests.World.{World, reconciler, secret, store, around, contents, place}

-- Accepts an object only if its count of successes is that of its entries.
abbrev strict : BmcSecretSyncStatus → Eff World (Result (Unit {0}))
strict object = pure (
    if count is_synced object.status.backend_paths =ℕ object.status.successful_paths
    then ok tt
    else err (errorf "false count"))

same_number : (n : ℕ) → (n =ℕ n) ≡ true
same_number n = ground arith

strict_agrees :
    (password : String) (object : BmcSecretSyncStatus) (w : World)
    → IsTruthful place contents password w object
    → strict object w ≡ (ok tt, w)
strict_agrees password object w t =
    rw (t.successful, same_number object.status.successful_paths) refl

discover_and_sync-agrees_example :
    discover_and_sync (with_update (reconciler secret true) strict) secret ([], [])
    ≡ discover_and_sync (reconciler secret true) secret ([], [])
discover_and_sync-agrees_example =
    discover_and_sync-agrees (reconciler secret true) store (around secret true) strict secret
      ([], []) (λ username password e. strict_agrees password)
