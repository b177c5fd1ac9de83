-- ===== src/Reconciler/Sync/InPlace.antt =====
-- The two sync loops, whole: what the backends hold at their end.
use bmc_secret_operator.Base.{
  ◌≡◌, ◌⊎◌, ◌≤◌, ◌∙◌, subst, sym, refl, String, Option, some, List, [], ◌∷◌,
}
use bmc_secret_operator.Base.{arith, All, All-map, ok, inl, inr}
use bmc_secret_operator.Api.Metal.{Bmc}
use bmc_secret_operator.Api.SyncStatus.{BackendPath}
use bmc_secret_operator.PathBuilder.{PathBuilder, build}
use bmc_secret_operator.Interface.{EngineBackend, SecretData}
use bmc_secret_operator.Interface.Store.{IsStore, IsQuiet}
use bmc_secret_operator.Reconciler.{BmcSecretReconciler}
use bmc_secret_operator.Reconciler.Sync.{
  Progress, no_progress, Job, password_of, sync_single, sync_engine, sync_engines,
}
use bmc_secret_operator.Reconciler.Sync.Round.{variables}
use bmc_secret_operator.Reconciler.Sync.Somewhere.{sync_single-AllSomewhere}
use bmc_secret_operator.Reconciler.Sync.Password.{
  sync_bmcs-keeps, sync_bmcs-errors, sync_bmcs-IsInPlace,
}

-- A status entry says Failed, or it says Success and its path's place has the password.
abbrev pub IsTrue :
    {S B L : Type 0}
    → (B → String → L)
    → (S → L → Option SecretData)
    → B
    → String
    → S
    → BackendPath
    → Type 0
IsTrue place stored backend password s bp =
    (bp.sync_status ≡ "Failed")
    ⊎ ((bp.sync_status ≡ "Success")
        × (password_of (stored s (place backend bp.path)) ≡ some password))

module _ {S B L : Type 0} (r : BmcSecretReconciler S B) {place : B → String → L}
    {stored : S → L → Option SecretData} (store : IsStore r.backends place stored)
    (event_quiet : (name type reason text : String)
      → IsQuiet stored (r.event name type reason text))
    (job : Job) (bmcs : List Bmc) where
  -- Given a backend that is a store, and events that leave it alone: every status entry of the
  -- single-engine loop says Failed, or it says Success and names a path where the backend holds,
  -- when the loop ends, the secret's password, whatever failed for the other BMCs.
  pub sync_single-AllTrue :
      (backend : B) (path_builder : PathBuilder) (s : S)
      → let (p, s') = sync_single r backend path_builder job bmcs s in
        All (IsTrue place stored backend job.password s') p.backend_paths
  sync_single-AllTrue backend path_builder s =
      All-map _ _
        (λ bp t. elim t [
          | inl e ↦ inl e
          | inr (e, (b, same, there)) ↦ inr (
            e,
            subst
                (λ b.
                  password_of
                    (stored (sync_single r backend path_builder job bmcs s).1 (place b bp.path))
                  ≡ some job.password)
                same there,
          )
        ])
        _
        (sync_single-AllSomewhere r store event_quiet job bmcs (λ b. b ≡ backend) backend
          path_builder s refl)

  abbrev pub IsEngineInPlace : S → EngineBackend B → Type 0
  IsEngineInPlace s engine =
      All
        (λ bmc.
          (path : String) × (build engine.path_builder (variables job bmc) ≡ ok path)
          × (password_of (stored s (place engine.backend path)) ≡ some job.password))
        bmcs

  sync_engines-keeps :
      (engines : List (EngineBackend B)) (p : Progress) (s : S) (l : L)
      → password_of (stored s l) ≡ some job.password
      → password_of (stored (sync_engines r job bmcs engines p s).1 l) ≡ some job.password
  unfolding sync_engines sync_engine
  sync_engines-keeps [] p s l h = h
  sync_engines-keeps (engine ∷ rest) p s l h =
      let (p', s') = sync_engine r job bmcs engine p s in
      sync_engines-keeps rest p' s' l (
        sync_bmcs-keeps r store _ _ (λ path e. event_quiet _ _ _ _) engine.backend
          engine.path_builder job bmcs p s l h)

  sync_engine-errors :
      (engine : EngineBackend B) (p : Progress) (s : S)
      → p.sync_errors ≤ (sync_engine r job bmcs engine p s).0.sync_errors
  unfolding sync_engine
  sync_engine-errors engine p s =
      sync_bmcs-errors r store _ _ (λ path e. event_quiet _ _ _ _) engine.backend
        engine.path_builder job bmcs p s

  sync_engines-errors :
      (engines : List (EngineBackend B)) (p : Progress) (s : S)
      → p.sync_errors ≤ (sync_engines r job bmcs engines p s).0.sync_errors
  unfolding sync_engines sync_engine
  sync_engines-errors [] p s = omega arith
  sync_engines-errors (engine ∷ rest) p s =
      let (p', s') = sync_engine r job bmcs engine p s in
      omega (arith, sync_engine-errors engine p s, sync_engines-errors rest p' s')

  sync_engines-IsInPlace_from :
      (engines : List (EngineBackend B)) (p : Progress) (s : S)
      → (sync_engines r job bmcs engines p s).0.sync_errors ≡ p.sync_errors
      → All (IsEngineInPlace (sync_engines r job bmcs engines p s).1) engines
  unfolding sync_engines sync_engine
  sync_engines-IsInPlace_from [] p s h = tt
  sync_engines-IsInPlace_from (engine ∷ rest) p s h =
      let (p', s') = sync_engine r job bmcs engine p s in
      let same : p'.sync_errors ≡ p.sync_errors =
        omega (arith, sync_engine-errors engine p s, sync_engines-errors rest p' s') in
      (
        All-map _ _ (λ bmc (path, b, there). (path, b, sync_engines-keeps rest p' s' _ there)) bmcs
            (sync_bmcs-IsInPlace r store _ _ (λ path e. event_quiet _ _ _ _) engine.backend
              engine.path_builder job bmcs p s same),
        sync_engines-IsInPlace_from rest p' s' (h ∙ sym same),
      )

  -- Given backends that are stores, and events that leave them alone: if the multi-engine loop
  -- counted no error, then for every engine and every BMC the path could be built and the engine's
  -- backend holds the secret's password there when the loop ends, also where engines or BMCs share
  -- places.
  pub sync_engines-IsInPlace :
      (engines : List (EngineBackend B)) (s : S)
      → (sync_engines r job bmcs engines no_progress s).0.sync_errors ≡ 0
      → All (IsEngineInPlace (sync_engines r job bmcs engines no_progress s).1) engines
  sync_engines-IsInPlace engines s h = sync_engines-IsInPlace_from engines no_progress s h
