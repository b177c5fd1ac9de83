-- ===== src/Reconciler/Sync/Round.antt =====
-- The five ways that one round of a sync loop can go, as a relation between the state before it
-- and the progress and the state behind it, and the runs of rounds.
use bmc_secret_operator.Base.{◌≡◌, String, Bool, true, false, Error, Result, ok, err}
use bmc_secret_operator.Base.{inl, inr, Result-cases}
use bmc_secret_operator.Base.Effect.{Eff}
use bmc_secret_operator.Api.Metal.{Bmc}
use bmc_secret_operator.PathBuilder.{PathBuilder, PathVariables, build}
use bmc_secret_operator.Resolver.{extract_region_from_bmc, get_hostname_from_bmc}
use bmc_secret_operator.Reconciler.{BmcSecretReconciler}
use bmc_secret_operator.Reconciler.Sync.{
  Progress, Job, path_failed, path_synced, secret_data, needs_update, sync_bmc,
}

abbrev pub variables : Job → Bmc → PathVariables
variables job bmc = record {
  region = extract_region_from_bmc bmc job.region_label_key;
  hostname = get_hostname_from_bmc bmc;
  username = job.username;
}

module _ {S B : Type 0} (r : BmcSecretReconciler S B) (message : Error → String)
    (report : String → Error → Eff S (Unit {0})) (backend : B) (path_builder : PathBuilder)
    (job : Job) where
  abbrev pub checked : String → S → Result Bool × S
  checked path = needs_update r backend path job.password

  abbrev pub written : String → S → Result (Unit {0}) × S
  written path s = r.backends.write_secret backend path (secret_data job) (checked path s).1

  pub data Round (bmc : Bmc) (p : Progress) (s : S) : Progress → S → Type 0 where
    not_built :
        (e : Error)
        → build path_builder (variables job bmc) ≡ err e
        → Round bmc p s (path_failed job bmc "" (message e) p) s
    not_checked :
        (path : String) (e : Error)
        → build path_builder (variables job bmc) ≡ ok path
        → (checked path s).0 ≡ err e
        → Round bmc p s (path_failed job bmc path (message e) p) (checked path s).1
    up_to_date :
        (path : String)
        → build path_builder (variables job bmc) ≡ ok path
        → (checked path s).0 ≡ ok false
        → Round bmc p s (path_synced job bmc path p) (checked path s).1
    not_written :
        (path : String) (e : Error)
        → build path_builder (variables job bmc) ≡ ok path
        → (checked path s).0 ≡ ok true
        → (written path s).0 ≡ err e
        → Round bmc p s
            (path_failed job bmc path (message e) p)
            (report path e (written path s).1).1
    is_written :
        (path : String)
        → build path_builder (variables job bmc) ≡ ok path
        → (checked path s).0 ≡ ok true
        → (written path s).0 ≡ ok tt
        → Round bmc p s (path_synced job bmc path p) (written path s).1

  pub sync_bmc-Round :
      (bmc : Bmc) (p : Progress) (s : S)
      → Round bmc p s
          (sync_bmc r message report backend path_builder job bmc p s).0
          (sync_bmc r message report backend path_builder job bmc p s).1
  unfolding sync_bmc
  sync_bmc-Round bmc p s = elim (Result-cases (build path_builder (variables job bmc))) [
    | inr (e, b) ↦ rw (b, sync_bmc) (not_built e b)
    | inl (path, b) ↦
        rw (b, sync_bmc)
          (elim (Result-cases (checked path s).0) [
            | inr (e, c) ↦ rw c (not_checked path e b c)
            | inl (false, c) ↦ rw c (up_to_date path b c)
            | inl (true, c) ↦ rw c (elim (Result-cases (written path s).0) [
              | inr (e, w) ↦ rw w (not_written path e b c w)
              | inl (_, w) ↦ rw w (is_written path b c w)
            ])
          ])
  ]
