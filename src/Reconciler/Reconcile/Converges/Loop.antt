-- ===== src/Reconciler/Reconcile/Converges/Loop.antt =====
-- The sync loops when every call of the backend returns.
use bmc_secret_operator.Base.{
  ◌≡◌, ap, ◌∙◌, refl, sym, String, Bool, true, not, ◌==◌, Option, none, some, List, [], ◌∷◌,
}
use bmc_secret_operator.Base.{Error, ok, inl, inr, Bool-cases}
use bmc_secret_operator.Base.Effect.{Eff}
use bmc_secret_operator.Api.Metal.{Bmc}
use bmc_secret_operator.PathBuilder.{PathBuilder}
use bmc_secret_operator.Interface.{EngineBackend, SecretData}
use bmc_secret_operator.Interface.Store.{IsStore, is_some}
use bmc_secret_operator.Reconciler.{BmcSecretReconciler}
use bmc_secret_operator.Reconciler.Sync.{
  Progress, Job, password_of, secret_data, path_synced, needs_update, sync_bmc, sync_bmcs,
  sync_engine, sync_engines,
}
use bmc_secret_operator.Reconciler.Sync.Round.{
  Round, not_built, not_checked, up_to_date, not_written, is_written, sync_bmc-Round, variables,
}
use bmc_secret_operator.Reconciler.Reconcile.Converges.Setting.{IsServing, AreServing}

module _ {S B L : Type 0} (r : BmcSecretReconciler S B) {place : B → String → L}
    {stored : S → L → Option SecretData} (store : IsStore r.backends place stored) (backend : B)
    (path_builder : PathBuilder) (serving : IsServing r place stored backend path_builder)
    (message : Error → String) (report : String → Error → Eff S (Unit {0})) (job : Job) where
  needs_update_returns :
      (path password : String) (s : S)
      → (needed : Bool) × ((needs_update r backend path password s).0 ≡ ok needed)
  unfolding needs_update
  needs_update_returns path password s =
      let (e, x) = serving.is_healthy.exists_returns path s in
      let s1 = (r.backends.secret_exists backend path s).1 in
      elim (Bool-cases e) [
        | inr absent ↦ (true, rw (x ∙ ap ok absent, needs_update) refl)
        | inl present ↦
            let there : is_some (stored s1 (place backend path)) ≡ true =
              ap is_some (store.exists_frame backend path s (place backend path))
              ∙ sym (store.exists_value backend path s e x)
              ∙ present in
            let (content, y) = serving.is_healthy.read_returns path s1 there in
            (
              elim (password_of content) [ none ↦ true | some current ↦ not (current == password) ],
              rw (x ∙ ap ok present, y, needs_update) refl,
            )
      ]

  Round-errors :
      {bmc : Bmc} {p p' : Progress} {s s' : S}
      → Round r message report backend path_builder job bmc p s p' s'
      → p'.sync_errors ≡ p.sync_errors
  unfolding path_synced
  Round-errors {bmc} (not_built e b) = cc (serving.is_built (variables job bmc)).1
  Round-errors {s} (not_checked path e b c) = cc (needs_update_returns path job.password s).1
  Round-errors (up_to_date path b c) = refl
  Round-errors (not_written path e b c w) = cc (serving.is_written path (secret_data job) _)
  Round-errors (is_written path b c w) = refl

  pub sync_bmcs-errors_none :
      (bmcs : List Bmc) (p : Progress) (s : S)
      → (sync_bmcs r message report backend path_builder job bmcs p s).0.sync_errors ≡ p.sync_errors
  unfolding sync_bmcs
  sync_bmcs-errors_none [] p s = refl
  sync_bmcs-errors_none (bmc ∷ rest) p s =
      let (p', s') = sync_bmc r message report backend path_builder job bmc p s in
      sync_bmcs-errors_none rest p' s'
      ∙ Round-errors (sync_bmc-Round r message report backend path_builder job bmc p s)

module _ {S B L : Type 0} (r : BmcSecretReconciler S B) {place : B → String → L}
    {stored : S → L → Option SecretData} (store : IsStore r.backends place stored) (job : Job)
    (bmcs : List Bmc) where
  pub sync_engines-errors_none :
      (engines : List (EngineBackend B)) (p : Progress) (s : S)
      → AreServing r place stored engines
      → (sync_engines r job bmcs engines p s).0.sync_errors ≡ p.sync_errors
  unfolding sync_engines sync_engine
  sync_engines-errors_none [] p s serve = refl
  sync_engines-errors_none (engine ∷ rest) p s (serving, serve) =
      let (p', s') = sync_engine r job bmcs engine p s in
      sync_engines-errors_none rest p' s' serve
      ∙ sync_bmcs-errors_none r store engine.backend engine.path_builder serving _ _ job bmcs p s
