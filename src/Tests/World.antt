-- ===== src/Tests/World.antt =====
-- A system to run the reconciler on: two in-memory backends, a cluster that holds one BMCSecret and
-- one BMC, and a factory that always answers.
use bmc_secret_operator.Base.{
  ◌≢◌, ap, sym, ◌≡◌, refl, String, Bool, true, false, Option, none, some, [], ◌∷◌, ◌⊎◌, inl, inr,
}
use bmc_secret_operator.Base.{
  arith, Error, errorf, Result, ok, err, ◌==◌, eq_iff, eq_refl, Bool-cases, Option-cases,
}
use bmc_secret_operator.Base.Effect.{Eff, pure}
use bmc_secret_operator.Base.Dict.{Dict, lookup, insert, erase, lookup-insert, lookup-erase}
use bmc_secret_operator.Api.Metal.{Bmc, BmcSecret}
use bmc_secret_operator.Api.SyncStatus.{Condition, BmcSecretSyncStatus}
use bmc_secret_operator.PathBuilder.{PathBuilder, text, field}
use bmc_secret_operator.Interface.{SecretData, BackendInterface, EngineBackend}
use bmc_secret_operator.Interface.Store.{IsStore, is_some}
use bmc_secret_operator.Reconciler.{BmcSecretReconciler, bmc_secret_finalizer}
use bmc_secret_operator.Reconciler.Quiet.{IsQuietAround}
use bmc_secret_operator.Reconciler.Sync.{Job}
use bmc_secret_operator.Reconciler.Sync.Again.{IsHealthy}

-- The backend `true` is the one that GetBackend returns; `false` belongs to a secret engine.
abbrev pub World : Type 0
World = Dict SecretData × Dict SecretData

abbrev pub contents : World → Bool × String → Option SecretData
contents w (true, path) = lookup path w.0
contents w (false, path) = lookup path w.1

abbrev pub shelf : Bool → World → Dict SecretData
shelf true w = w.0
shelf false w = w.1

abbrev pub put : Bool → Dict SecretData → World → World
put true d w = (d, w.1)
put false d w = (w.0, d)

abbrev pub place : Bool → String → Bool × String
place b path = (b, path)

unfoldable pub read : Bool → String → Eff World (Result (Option SecretData))
read b path w = elim (lookup path (shelf b w)) [
  | none ↦ (err (errorf "not found"), w)
  | some content ↦ (ok (some content), w)
]

abbrev pub backends : BackendInterface World Bool
backends = record {
  write_secret = λ b path content w. (ok tt, put b (insert path content (shelf b w)) w);
  read_secret = read;
  delete_secret = λ b path w. (ok tt, put b (erase path (shelf b w)) w);
  secret_exists = λ b path w. (ok (is_some (lookup path (shelf b w))), w);
  close = λ b w. (ok tt, w);
}

abbrev pub secret : BmcSecret
secret = record {
  name = "bmc-1";
  labels = some (("sync", "yes") ∷ []);
  finalizers = bmc_secret_finalizer ∷ "other" ∷ [];
  deletion_timestamp = none;
  content = ("username", "admin") ∷ ("password", "secret") ∷ [];
}

abbrev pub bmc : Bmc
bmc = record {
  name = "node-1";
  labels = some (("region", "eu") ∷ []);
  hostname = some "node-1.example";
  endpoint_ref = none;
  bmc_secret_ref = "bmc-1";
}

abbrev pub path_builder : PathBuilder
path_builder = record {
  template =
      text "bmc/" ∷ field "Region" ∷ text "/" ∷ field "Hostname" ∷ text "/" ∷ field "Username" ∷ [];
}

abbrev pub admin_path : String
admin_path = "bmc/eu/node-1.example/admin"

abbrev pub job : Job
job = record {
  secret_name = "bmc-1";
  username = "admin";
  password = "secret";
  region_label_key = "region";
  sync_time = 7;
}

abbrev pub engine : EngineBackend Bool
engine = record {
  backend = false;
  engine_name = "engine";
  path_builder = path_builder;
  sync_label = "sync=yes";
  sync_label_key = "sync";
  sync_label_val = "yes";
}

abbrev pub update_refused : Error
update_refused = errorf "conflict"

abbrev pub condition : Condition
condition = record {
  type = "Synced";
  status = "False";
  observed_generation = 1;
  last_transition_time = 5;
  reason = "PartialSync";
  message = "Synced 1/3 paths";
}

abbrev pub old_status : BmcSecretSyncStatus
old_status = record {
  name = "bmc-1-sync-status";
  generation = 1;
  spec = record { bmc_secret_ref = "bmc-1" };
  status = record {
    backend_paths = [];
    last_sync_attempt = 5;
    total_paths = 3;
    successful_paths = 1;
    failed_paths = 2;
    conditions = condition ∷ [];
  };
}

-- The cluster returns the object `stored` and accepts an update if `accepts`.
abbrev pub reconciler : BmcSecret → Bool → BmcSecretReconciler World Bool
reconciler stored accepts = record {
  client = record {
    get_bmc_secret = λ name. pure (ok stored);
    update_bmc_secret = λ new w. (elim accepts [ true ↦ ok new | false ↦ err update_refused ], w);
    list_bmcs = pure (ok (bmc ∷ []));
    get_sync_status = λ name. pure (ok old_status);
    create_sync_status = λ status. pure (ok tt);
    delete_sync_status = λ status. pure (ok tt);
    update_sync_status = λ status. pure (ok tt);
  };
  event = λ name type reason message. pure tt;
  backend_factory = record {
    get_backend = pure (ok true);
    get_path_builder = pure (ok path_builder);
    get_region_label_key = pure (ok "region");
    get_sync_label = pure (ok "sync");
    get_engine_backends = λ labels. pure (ok (engine ∷ []));
    has_multi_engine_config = pure (ok true);
    invalidate_cache = pure (ok tt);
    close = pure (ok tt);
  };
  backends = backends;
  metrics = none;
  now = pure 7;
}

write_frame :
    (b : Bool) (path : String) (content : SecretData) (w : World) (l : Bool × String)
    → (contents (put b (insert path content (shelf b w)) w) l ≡ contents w l)
      ⊎ ((l ≡ (b, path)) × (contents (put b (insert path content (shelf b w)) w) l ≡ some content))
write_frame true path content w (false, l) = inl refl
write_frame false path content w (true, l) = inl refl
write_frame true path content w (true, l) = elim (Bool-cases (path == l)) [
  | inl same ↦ inr (
    ap (λ (p : String). (true, p)) (sym ((eq_iff path l).0 same)),
    ground (arith, lookup-insert path l content w.0),
  )
  | inr other ↦ inl (ground (arith, lookup-insert path l content w.0))
]
write_frame false path content w (false, l) = elim (Bool-cases (path == l)) [
  | inl same ↦ inr (
    ap (λ (p : String). (false, p)) (sym ((eq_iff path l).0 same)),
    ground (arith, lookup-insert path l content w.1),
  )
  | inr other ↦ inl (ground (arith, lookup-insert path l content w.1))
]

erase_frame :
    (b : Bool) (path : String) (w : World) (l : Bool × String)
    → (contents (put b (erase path (shelf b w)) w) l ≡ contents w l)
      ⊎ ((l ≡ (b, path)) × (contents (put b (erase path (shelf b w)) w) l ≡ none))
erase_frame true path w (false, l) = inl refl
erase_frame false path w (true, l) = inl refl
erase_frame true path w (true, l) = elim (Bool-cases (path == l)) [
  | inl same ↦ inr (
    ap (λ (p : String). (true, p)) (sym ((eq_iff path l).0 same)),
    ground (arith, lookup-erase path l w.0),
  )
  | inr other ↦ inl (ground (arith, lookup-erase path l w.0))
]
erase_frame false path w (false, l) = elim (Bool-cases (path == l)) [
  | inl same ↦ inr (
    ap (λ (p : String). (false, p)) (sym ((eq_iff path l).0 same)),
    ground (arith, lookup-erase path l w.1),
  )
  | inr other ↦ inl (ground (arith, lookup-erase path l w.1))
]

write_value :
    (b : Bool) (path : String) (content : SecretData) (w : World)
    → contents (put b (insert path content (shelf b w)) w) (b, path) ≡ some content
write_value true path content w = ground (arith, lookup-insert path path content w.0, eq_refl path)
write_value false path content w = ground (arith, lookup-insert path path content w.1, eq_refl path)

erase_value :
    (b : Bool) (path : String) (w : World)
    → contents (put b (erase path (shelf b w)) w) (b, path) ≡ none
erase_value true path w = ground (arith, lookup-erase path path w.0, eq_refl path)
erase_value false path w = ground (arith, lookup-erase path path w.1, eq_refl path)

shelf-contents :
    (b : Bool) (path : String) (w : World) → lookup path (shelf b w) ≡ contents w (b, path)
shelf-contents true path w = refl
shelf-contents false path w = refl

read_value :
    (b : Bool) (path : String) (w : World) (content : Option SecretData)
    → (read b path w).0 ≡ ok content
    → contents w (b, path) ≡ content
unfolding read
read_value b path w content h = ground (arith, shelf-contents b path w)

pub store : IsStore backends place contents
unfolding read
store = record {
  exists_value = λ b path w e h. ground (arith, shelf-contents b path w);
  exists_frame = λ b path w l. refl;
  read_value = read_value;
  read_frame = λ b path w l. ground arith;
  write_value = λ b path content w h. write_value b path content w;
  write_frame = write_frame;
  delete_value = λ b path w h. erase_value b path w;
  delete_frame = erase_frame;
}

pub none≢some : {A : Type 0} (a : A) → none ≢ some a
none≢some a = λ e. cc

pub around :
    (stored : BmcSecret) (accepts : Bool) → IsQuietAround (reconciler stored accepts) contents
around stored accepts = record {
  get_secret_quiet = λ _ w l. refl;
  update_quiet = λ _ w l. refl;
  list_quiet = λ w l. refl;
  get_status_quiet = λ _ w l. refl;
  create_status_quiet = λ _ w l. refl;
  update_status_quiet = λ _ w l. refl;
  delete_status_quiet = λ _ w l. refl;
  event_quiet = λ _ _ _ _ w l. refl;
  get_backend_quiet = λ w l. refl;
  get_path_builder_quiet = λ w l. refl;
  get_region_label_key_quiet = λ w l. refl;
  get_sync_label_quiet = λ w l. refl;
  get_engine_backends_quiet = λ _ w l. refl;
  has_multi_engine_config_quiet = λ w l. refl;
  now_quiet = λ w l. refl;
  metrics_quiet = λ m e. absurd (none≢some m e);
}

read_returns :
    (b : Bool) (path : String) (w : World)
    → is_some (contents w (b, path)) ≡ true
    → (content : Option SecretData) × ((read b path w).0 ≡ ok content)
unfolding read
read_returns b path w h = elim (Option-cases (lookup path (shelf b w))) [
  | inl e ↦ ground (arith, shelf-contents b path w)
  | inr (content, e) ↦ (some content, rw (e, read))
]

pub healthy : (b : Bool) → IsHealthy (reconciler secret true) place contents b
healthy b = record { exists_returns = λ path w. (_, refl); read_returns = read_returns b }
