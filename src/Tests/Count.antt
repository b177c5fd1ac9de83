-- ===== src/Tests/Count.antt =====
-- The writes of a pass, counted by backends that keep every write.
use bmc_secret_operator.Base.{
  ℕ, ◌+◌, ◌*◌, ◌≤◌, ◌≡◌, refl, String, Bool, true, false, [], ◌∷◌, arith, length, ok,
}
use bmc_secret_operator.Interface.{SecretData}
use bmc_secret_operator.Reconciler.{BmcSecretReconciler}
use bmc_secret_operator.Reconciler.Sync.{no_progress, sync_single, sync_engines}
use bmc_secret_operator.Reconciler.Sync.Count.{IsCounting, sync-writes}
use bmc_secret_operator.Tests.World.{
  World, bmc, secret, path_builder, job, engine, reconciler, backends, put, shelf, read,
}

abbrev keeper : BmcSecretReconciler World Bool
keeper = record (reconciler secret true) {
  backends = record backends {
    write_secret = λ b path content w. (ok tt, put b ((path, content) ∷ shelf b w) w);
  };
}

abbrev writes : World → ℕ
writes w = length w.0 + length w.1

write_adds_one :
    (b : Bool) (path : String) (content : SecretData) (w : World)
    → writes (put b ((path, content) ∷ shelf b w) w) ≤ writes w + 1
write_adds_one true path content w = omega arith
write_adds_one false path content w = omega arith

read_adds_none : (b : Bool) (path : String) (w : World) → writes (read b path w).1 ≡ writes w
unfolding read
read_adds_none b path w = ground arith

keeper-IsCounting : IsCounting keeper writes
keeper-IsCounting = record {
  exists_adds_none = λ b path w. refl;
  read_adds_none = read_adds_none;
  write_adds_one = write_adds_one;
  event_adds_none = λ _ _ _ _ w. refl;
}

sync-writes_example :
    (writes (sync_single keeper true path_builder job (bmc ∷ bmc ∷ []) ([], [])).1 ≤ 0 + 2)
    × (writes (sync_engines keeper job (bmc ∷ bmc ∷ []) (engine ∷ []) no_progress ([], [])).1
        ≤ 0 + 1 * 2)
sync-writes_example =
    sync-writes keeper writes keeper-IsCounting job (bmc ∷ bmc ∷ []) true path_builder (engine ∷ [])
      ([], [])
