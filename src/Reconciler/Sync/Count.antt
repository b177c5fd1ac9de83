-- ===== src/Reconciler/Sync/Count.antt =====
-- How often the sync loops write.
use bmc_secret_operator.Base.{ℕ, ◌+◌, ◌*◌, ◌≡◌, ◌≤◌, ◌∙◌, String, true, false, List, [], ◌∷◌}
use bmc_secret_operator.Base.{arith, length, Error, inl, inr, Result-cases}
use bmc_secret_operator.Base.Effect.{Eff}
use bmc_secret_operator.Api.Metal.{Bmc}
use bmc_secret_operator.PathBuilder.{PathBuilder}
use bmc_secret_operator.Interface.{EngineBackend, SecretData}
use bmc_secret_operator.Reconciler.{BmcSecretReconciler}
use bmc_secret_operator.Reconciler.Sync.{
  Progress, no_progress, Job, needs_update, secret_data, sync_bmc, sync_bmcs, sync_single,
  sync_engine, sync_engines,
}
use bmc_secret_operator.Reconciler.Sync.Round.{
  Round, not_built, not_checked, up_to_date, not_written, is_written, written, sync_bmc-Round,
}

-- `writes` counts calls of WriteSecret: one adds at most one, and no other call adds any.
pub record IsCounting {S B : Type 0} (r : BmcSecretReconciler S B) (writes : S → ℕ) : Type 0 where
  pub exists_adds_none :
      (b : B) (path : String) (s : S) → writes (r.backends.secret_exists b path s).1 ≡ writes s
  pub read_adds_none :
      (b : B) (path : String) (s : S) → writes (r.backends.read_secret b path s).1 ≡ writes s
  pub write_adds_one :
      (b : B) (path : String) (content : SecretData) (s : S)
      → writes (r.backends.write_secret b path content s).1 ≤ writes s + 1
  pub event_adds_none :
      (name type reason text : String) (s : S)
      → writes (r.event name type reason text s).1 ≡ writes s

module _ {S B : Type 0} (r : BmcSecretReconciler S B) (writes : S → ℕ)
    (counting : IsCounting r writes) (job : Job) (bmcs : List Bmc) where
  needs_update-writes :
      (backend : B) (path password : String) (s : S)
      → writes (needs_update r backend path password s).1 ≡ writes s
  unfolding needs_update
  needs_update-writes backend path password s =
      let none_added = counting.exists_adds_none backend path s in
      let s1 = (r.backends.secret_exists backend path s).1 in
      elim (Result-cases (r.backends.secret_exists backend path s).0) [
        | inr (e, x) ↦ rw (x, needs_update) none_added
        | inl (false, x) ↦ rw (x, needs_update) none_added
        | inl (true, x) ↦ elim (Result-cases (r.backends.read_secret backend path s1).0) [
          | inr (e, y) ↦
              rw (x, y, needs_update) (counting.read_adds_none backend path s1 ∙ none_added)
          | inl (content, y) ↦
              rw (x, y, needs_update) (counting.read_adds_none backend path s1 ∙ none_added)
        ]
      ]

  module _ (message : Error → String) (report : String → Error → Eff S (Unit {0}))
      (report_adds_none : (path : String) (e : Error) (s : S)
        → writes (report path e s).1 ≡ writes s)
      (backend : B) (path_builder : PathBuilder) where
    Round-writes :
        {bmc : Bmc} {p p' : Progress} {s s' : S}
        → Round r message report backend path_builder job bmc p s p' s'
        → writes s' ≤ writes s + 1
    Round-writes (not_built e b) = omega arith
    Round-writes {s} (not_checked path e b c) =
        omega (arith, needs_update-writes backend path job.password s)
    Round-writes {s} (up_to_date path b c) =
        omega (arith, needs_update-writes backend path job.password s)
    Round-writes {s} (not_written path e b c w) = omega (
      arith,
      needs_update-writes backend path job.password s,
      counting.write_adds_one backend path (secret_data job)
          (needs_update r backend path job.password s).1,
      report_adds_none path e (written r message report backend path_builder job path s).1,
    )
    Round-writes {s} (is_written path b c w) = omega (
      arith,
      needs_update-writes backend path job.password s,
      counting.write_adds_one backend path (secret_data job)
          (needs_update r backend path job.password s).1,
    )

    sync_bmcs-writes :
        (bmcs : List Bmc) (p : Progress) (s : S)
        → writes (sync_bmcs r message report backend path_builder job bmcs p s).1
          ≤ writes s + length bmcs
    unfolding sync_bmcs
    sync_bmcs-writes [] p s = omega arith
    sync_bmcs-writes (bmc ∷ rest) p s =
        let (p', s') = sync_bmc r message report backend path_builder job bmc p s in
        omega (
          arith,
          sync_bmcs-writes rest p' s',
          Round-writes (sync_bmc-Round r message report backend path_builder job bmc p s),
        )

  sync_engine-writes :
      (engine : EngineBackend B) (p : Progress) (s : S)
      → writes (sync_engine r job bmcs engine p s).1 ≤ writes s + length bmcs
  unfolding sync_engine
  sync_engine-writes engine p s =
      sync_bmcs-writes _ _ (λ path e. counting.event_adds_none _ _ _ _) engine.backend
        engine.path_builder bmcs p s

  sync_engines-writes_from :
      (engines : List (EngineBackend B)) (p : Progress) (s : S)
      → writes (sync_engines r job bmcs engines p s).1 ≤ writes s + length engines * length bmcs
  unfolding sync_engines
  sync_engines-writes_from [] p s = grind arith
  sync_engines-writes_from (engine ∷ rest) p s =
      let (p', s') = sync_engine r job bmcs engine p s in
      grind (arith, sync_engines-writes_from rest p' s', sync_engine-writes engine p s)

  -- However the calls end, a pass of the single-engine loop calls WriteSecret at most once for each
  -- BMC, and a pass of the multi-engine loop at most once for each pair of an engine and a BMC.
  pub sync-writes :
      (backend : B) (path_builder : PathBuilder) (engines : List (EngineBackend B)) (s : S)
      → (writes (sync_single r backend path_builder job bmcs s).1 ≤ writes s + length bmcs)
        × (writes (sync_engines r job bmcs engines no_progress s).1
            ≤ writes s + length engines * length bmcs)
  unfolding sync_single
  sync-writes backend path_builder engines s = (
    sync_bmcs-writes _ _ (λ path e. counting.event_adds_none _ _ _ _) backend path_builder bmcs
        no_progress s,
    sync_engines-writes_from engines no_progress s,
  )
