-- ===== src/Reconciler/Sync/Writes.antt =====
-- What the loops keep of one place, whatever fails in them.
use bmc_secret_operator.Base.{
  ◌≡◌, refl, All, sym, subst, String, Option, some, List, [], ◌∷◌, Error, Result, ok, err, not, inl,
  inr, if◌then◌else◌,
}
use bmc_secret_operator.Base.Effect.{Eff, ◌>>◌, attempt, pure}
use bmc_secret_operator.Base.Effect.Keeps.{
  Keeps-pure, Keeps-if, Keeps->>, Keeps-bind, Keeps-attempt,
}
use bmc_secret_operator.Api.Metal.{Bmc}
use bmc_secret_operator.PathBuilder.{PathBuilder, PathVariables, build}
use bmc_secret_operator.Interface.{EngineBackend, SecretData}
use bmc_secret_operator.Interface.Store.{IsStore, IsQuiet}
use bmc_secret_operator.Reconciler.{BmcSecretReconciler}
use bmc_secret_operator.Reconciler.Kept.{Kept, quiet_Kept}
use bmc_secret_operator.Reconciler.Sync.{
  Progress, no_progress, Job, path_failed, path_synced, secret_data, needs_update, sync_bmc,
  sync_bmcs, sync_single, sync_engine, sync_engines,
}
use bmc_secret_operator.Reconciler.Sync.Round.{variables}
use bmc_secret_operator.Reconciler.Sync.Password.{needs_update-IsQuiet}

-- If the place is that of a path that the builder builds, then `Q`.
abbrev pub Fills : {B L : Type 0} → (B → String → L) → L → B → PathBuilder → Type 0 → Type 0
Fills place l backend path_builder Q =
    (vars : PathVariables) (path : String)
    → build path_builder vars ≡ ok path
    → l ≡ place backend path
    → Q

module _ {S B L : Type 0} (r : BmcSecretReconciler S B) {place : B → String → L}
    {stored : S → L → Option SecretData} (store : IsStore r.backends place stored)
    (event_quiet : (name type reason text : String)
      → IsQuiet stored (r.event name type reason text))
    (l : L) (P : Option SecretData → Type 0) (job : Job) where
  write-Kept :
      (backend : B) (path : String)
      → (l ≡ place backend path → P (some (secret_data job)))
      → Kept stored l P (r.backends.write_secret backend path (secret_data job))
  write-Kept backend path fills = record {
    at = λ s h. elim (store.write_frame backend path (secret_data job) s l) [
      | inl same ↦ subst P (sym same) h
      | inr (here, full) ↦ subst P (sym full) (fills here)
    ];
  }

  module _ (message : Error → String) (report : String → Error → Eff S (Unit {0}))
      (report_quiet : (path : String) (e : Error) → IsQuiet stored (report path e)) (backend : B)
      (path_builder : PathBuilder)
      (fills : Fills place l backend path_builder (P (some (secret_data job)))) where
    sync_bmc-Kept :
        (bmc : Bmc) (p : Progress)
        → Kept stored l P (sync_bmc r message report backend path_builder job bmc p)
    unfolding sync_bmc
    sync_bmc-Kept bmc p = one (build path_builder (variables job bmc)) refl
      where
        one :
            (built : Result String)
            → build path_builder (variables job bmc) ≡ built
            → Kept stored l P (elim built [
              | err e ↦ pure (path_failed job bmc "" (message e) p)
              | ok path ↦
                  attempt
                    (needs_update r backend path job.password)
                    (λ e. pure (path_failed job bmc path (message e) p))
                    λ needed.
                      if not needed
                      then pure (path_synced job bmc path p)
                      else attempt
                          (r.backends.write_secret backend path (secret_data job))
                          (λ e. report path e >> pure (path_failed job bmc path (message e) p))
                          (λ _. pure (path_synced job bmc path p))
            ])
        one (err e) b = Keeps-pure _
        one (ok path) b =
            Keeps-attempt (needs_update r backend path job.password)
              (quiet_Kept stored l P _ (needs_update-IsQuiet r store backend path job.password))
              (λ e. Keeps-pure _)
              λ _ needed _. Keeps-if (not needed) (Keeps-pure _) (
                Keeps-attempt (r.backends.write_secret backend path (secret_data job))
                  (write-Kept backend path (fills (variables job bmc) path b))
                  (λ e. Keeps->> (quiet_Kept stored l P _ (report_quiet path e)) (Keeps-pure _))
                  (λ _ _ _. Keeps-pure _))

    sync_bmcs-Kept :
        (bmcs : List Bmc) (p : Progress)
        → Kept stored l P (sync_bmcs r message report backend path_builder job bmcs p)
    unfolding sync_bmcs
    sync_bmcs-Kept [] p = Keeps-pure p
    sync_bmcs-Kept (bmc ∷ rest) p =
        Keeps-bind (sync_bmc r message report backend path_builder job bmc p) (sync_bmc-Kept bmc p)
          (λ p'. sync_bmcs-Kept rest p')

module _ {S B L : Type 0} (r : BmcSecretReconciler S B) {place : B → String → L}
    {stored : S → L → Option SecretData} (store : IsStore r.backends place stored)
    (event_quiet : (name type reason text : String)
      → IsQuiet stored (r.event name type reason text))
    (l : L) (P : Option SecretData → Type 0) (job : Job) (bmcs : List Bmc) where
  pub sync_single-Kept :
      (backend : B) (path_builder : PathBuilder)
      → Fills place l backend path_builder (P (some (secret_data job)))
      → Kept stored l P (sync_single r backend path_builder job bmcs)
  unfolding sync_single
  sync_single-Kept backend path_builder fills =
      sync_bmcs-Kept r store event_quiet l P job _ _ (λ path e. event_quiet _ _ _ _) backend
        path_builder fills bmcs no_progress

  pub sync_engines-Kept :
      (engines : List (EngineBackend B)) (p : Progress)
      → All
          (λ engine. Fills place l engine.backend engine.path_builder (P (some (secret_data job))))
          engines
      → Kept stored l P (sync_engines r job bmcs engines p)
  unfolding sync_engines sync_engine
  sync_engines-Kept [] p fills = Keeps-pure p
  sync_engines-Kept (engine ∷ rest) p (fills, others) =
      Keeps-bind (sync_engine r job bmcs engine p)
        (sync_bmcs-Kept r store event_quiet l P job _ _ (λ path e. event_quiet _ _ _ _)
          engine.backend engine.path_builder fills bmcs p)
        (λ p'. sync_engines-Kept rest p' others)
