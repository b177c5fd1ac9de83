-- ===== src/Reconciler/Sync/Somewhere.antt =====
-- The status entries of the sync loops, and the backends that they are about: in the multi-engine
-- loop an entry does not name its engine's backend.
use bmc_secret_operator.Base.{◌≡◌, ◌⊎◌, refl, String, Option, some, List, [], ◌∷◌}
use bmc_secret_operator.Base.{All, All-append, All-map, Error, inl, inr}
use bmc_secret_operator.Base.Effect.{Eff}
use bmc_secret_operator.Api.Metal.{Bmc}
use bmc_secret_operator.Api.SyncStatus.{BackendPath}
use bmc_secret_operator.PathBuilder.{PathBuilder}
use bmc_secret_operator.Interface.{EngineBackend, SecretData}
use bmc_secret_operator.Interface.Store.{IsStore, IsQuiet}
use bmc_secret_operator.Reconciler.{BmcSecretReconciler}
use bmc_secret_operator.Reconciler.Sync.{
  Progress, no_progress, Job, path_failed, path_synced, password_of, sync_bmc, sync_bmcs,
  sync_single, sync_engine, sync_engines,
}
use bmc_secret_operator.Reconciler.Sync.Round.{
  Round, not_built, not_checked, up_to_date, not_written, is_written, sync_bmc-Round,
}
use bmc_secret_operator.Reconciler.Sync.Password.{Round-keeps, checked-Holds, written-Holds}

-- A status entry says Failed, or it says Success and a backend among some has the password at its
-- path.
abbrev pub IsSomewhere :
    {S B L : Type 0}
    → (B → Type 0)
    → (B → String → L)
    → (S → L → Option SecretData)
    → String
    → S
    → BackendPath
    → Type 0
IsSomewhere {B} Among place stored password s bp =
    (bp.sync_status ≡ "Failed")
    ⊎ ((bp.sync_status ≡ "Success")
        × ((backend : B) × Among backend
            × (password_of (stored s (place backend bp.path)) ≡ some password)))

module _ {S B L : Type 0} (r : BmcSecretReconciler S B) {place : B → String → L}
    {stored : S → L → Option SecretData} (store : IsStore r.backends place stored)
    (message : Error → String) (report : String → Error → Eff S (Unit {0}))
    (quiet : (path : String) (e : Error) → IsQuiet stored (report path e)) (backend : B)
    (path_builder : PathBuilder) (job : Job) (Among : B → Type 0) (among : Among backend) where
  abbrev AllSomewhere : S → Progress → Type 0
  AllSomewhere s p = All (IsSomewhere Among place stored job.password s) p.backend_paths

  path_failed-AllSomewhere :
      (bmc : Bmc) (path text : String) (p : Progress) (s : S)
      → AllSomewhere s p
      → AllSomewhere s (path_failed job bmc path text p)
  unfolding path_failed
  path_failed-AllSomewhere bmc path text p s h = All-append _ p.backend_paths _ h (inl refl, tt)

  path_synced-AllSomewhere :
      (bmc : Bmc) (path : String) (p : Progress) (s : S)
      → password_of (stored s (place backend path)) ≡ some job.password
      → AllSomewhere s p
      → AllSomewhere s (path_synced job bmc path p)
  unfolding path_synced
  path_synced-AllSomewhere bmc path p s there h =
      All-append _ p.backend_paths _ h (inr (refl, (backend, among, there)), tt)

  -- The entry that a round adds.
  Round-adds :
      {bmc : Bmc} {p p' : Progress} {s s' : S}
      → Round r message report backend path_builder job bmc p s p' s'
      → AllSomewhere s' p
      → AllSomewhere s' p'
  Round-adds {bmc} {p} {s} (not_built e _) k = path_failed-AllSomewhere bmc "" (message e) p s k
  Round-adds {bmc} {p} (not_checked path e _ _) k =
      path_failed-AllSomewhere bmc path (message e) p _ k
  Round-adds {bmc} {p} {s} (up_to_date path _ c) k =
      path_synced-AllSomewhere bmc path p _
        (checked-Holds r store message report quiet backend path_builder job path s c) k
  Round-adds {bmc} {p} (not_written path e _ _ _) k =
      path_failed-AllSomewhere bmc path (message e) p _ k
  Round-adds {bmc} {p} {s} (is_written path _ _ w) k =
      path_synced-AllSomewhere bmc path p _
        (written-Holds r store message report quiet backend path_builder job path s w) k

  Round-AllSomewhere :
      {bmc : Bmc} {p p' : Progress} {s s' : S}
      → Round r message report backend path_builder job bmc p s p' s'
      → AllSomewhere s p
      → AllSomewhere s' p'
  Round-AllSomewhere {p} round h = Round-adds round (
      All-map _ _
        (λ bp t. elim t [
          | inl e ↦ inl e
          | inr (e, (b, a, there)) ↦ inr (
            e,
            (b, a, Round-keeps r store message report quiet backend path_builder job round _ there),
          )
        ])
        p.backend_paths h)

  sync_bmcs-AllSomewhere :
      (bmcs : List Bmc) (p : Progress) (s : S)
      → AllSomewhere s p
      → AllSomewhere
          (sync_bmcs r message report backend path_builder job bmcs p s).1
          (sync_bmcs r message report backend path_builder job bmcs p s).0
  unfolding sync_bmcs
  sync_bmcs-AllSomewhere [] p s h = h
  sync_bmcs-AllSomewhere (bmc ∷ rest) p s h =
      let (p', s') = sync_bmc r message report backend path_builder job bmc p s in
      sync_bmcs-AllSomewhere rest p' s'
        (Round-AllSomewhere (sync_bmc-Round r message report backend path_builder job bmc p s) h)

module _ {S B L : Type 0} (r : BmcSecretReconciler S B) {place : B → String → L}
    {stored : S → L → Option SecretData} (store : IsStore r.backends place stored)
    (event_quiet : (name type reason text : String)
      → IsQuiet stored (r.event name type reason text))
    (job : Job) (bmcs : List Bmc) (Among : B → Type 0) where
  pub sync_single-AllSomewhere :
      (backend : B) (path_builder : PathBuilder) (s : S)
      → Among backend
      → let (p, s') = sync_single r backend path_builder job bmcs s in
        All (IsSomewhere Among place stored job.password s') p.backend_paths
  unfolding sync_single
  sync_single-AllSomewhere backend path_builder s among =
      sync_bmcs-AllSomewhere r store _ _ (λ path e. event_quiet _ _ _ _) backend path_builder job
        Among among bmcs no_progress s tt

  pub sync_engines-AllSomewhere :
      (engines : List (EngineBackend B)) (p : Progress) (s : S)
      → All (λ engine. Among engine.backend) engines
      → All (IsSomewhere Among place stored job.password s) p.backend_paths
      → let (p', s') = sync_engines r job bmcs engines p s in
        All (IsSomewhere Among place stored job.password s') p'.backend_paths
  unfolding sync_engines sync_engine
  sync_engines-AllSomewhere [] p s among h = h
  sync_engines-AllSomewhere (engine ∷ rest) p s among h =
      let (p', s') = sync_engine r job bmcs engine p s in
      sync_engines-AllSomewhere rest p' s' among.1 (
        sync_bmcs-AllSomewhere r store _ _ (λ path e. event_quiet _ _ _ _) engine.backend
          engine.path_builder job Among among.0 bmcs p s h)
