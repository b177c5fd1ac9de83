-- ===== src/Tests/Departs.antt =====
-- A run of `World` for a secret that is being deleted.
use bmc_secret_operator.Base.{true, ◌≡◌, refl, some, [], ◌∷◌}
use bmc_secret_operator.Base.Dict.{lookup}
use bmc_secret_operator.Api.Metal.{BmcSecret}
use bmc_secret_operator.Interface.{str}
use bmc_secret_operator.Resolver.{extract_credentials}
use bmc_secret_operator.Reconciler.{done}
use bmc_secret_operator.Reconciler.Deletion.{contains_finalizer, remove_finalizer}
use bmc_secret_operator.Reconciler.Reconcile.{reconcile, lacks_sync_label}
use bmc_secret_operator.Reconciler.Reconcile.Converges.Setting.{Situation}
use bmc_secret_operator.Reconciler.Reconcile.Departs.{IsDeparting, AllCleared, reconcile-AllCleared}
use bmc_secret_operator.Tests.World.{
  World, bmc, secret, path_builder, admin_path, reconciler, store, around,
}

abbrev deleted : BmcSecret
deleted = record secret { deletion_timestamp = some 1 }

abbrev departure : Situation
departure = record {
  name = "bmc-1";
  read = deleted;
  updated = remove_finalizer deleted;
  bmcs = bmc ∷ [];
  sync_label = "sync";
  region_label_key = "region";
  username = "admin";
  password = "secret";
}

deleted-IsDeparting : IsDeparting (reconciler deleted true) departure true path_builder
unfolding lacks_sync_label contains_finalizer extract_credentials lookup
deleted-IsDeparting = record {
  is_read = λ w. refl;
  label_is_read = λ w. refl;
  is_labelled = refl;
  is_deleted = (1, refl);
  is_marked = refl;
  is_listed = λ w. refl;
  is_complete = refl;
  backend_is_got = λ w. refl;
  builder_is_got = λ w. refl;
  key_is_got = λ w. refl;
  is_erased = λ path w. refl;
  is_released = λ w. refl;
}

abbrev before : World
before = ((admin_path, ("password", str "secret") ∷ []) ∷ [], [])

reconcile-AllCleared_example :
    let after = reconcile (reconciler deleted true) "bmc-1" before in
    (after.0 ≡ done 0)
    × AllCleared (reconciler deleted true) store departure true path_builder after.1
reconcile-AllCleared_example =
    reconcile-AllCleared (reconciler deleted true) store (around deleted true) departure true
      path_builder deleted-IsDeparting before
