-- ===== src/Reconciler/Sync/Again/Engines.antt =====
-- A second pass of the multi-engine loop.
use bmc_secret_operator.Base.{ℕ, ◌≡◌, refl, ap, ◌∙◌, String, Option, List, [], ◌∷◌, Result}
use bmc_secret_operator.Base.{All, All-map}
use bmc_secret_operator.Base.Effect.{Eff}
use bmc_secret_operator.Api.Metal.{Bmc}
use bmc_secret_operator.Interface.{EngineBackend, SecretData}
use bmc_secret_operator.Interface.Store.{IsStore, IsQuiet}
use bmc_secret_operator.Reconciler.{BmcSecretReconciler}
use bmc_secret_operator.Reconciler.Sync.{
  Progress, no_progress, Job, password_of, sync_engine, sync_engines,
}
use bmc_secret_operator.Reconciler.Sync.Again.{
  IsHealthy, with_write, sync_bmcs-InPlace, sync_bmcs-with_write,
}
use bmc_secret_operator.Reconciler.Sync.InPlace.{IsEngineInPlace, sync_engines-IsInPlace}

module _ {S B L : Type 0} (r : BmcSecretReconciler S B) {place : B → String → L}
    {stored : S → L → Option SecretData} (store : IsStore r.backends place stored)
    (event_quiet : (name type reason text : String)
      → IsQuiet stored (r.event name type reason text))
    (bmcs : List Bmc) where
  abbrev HasAll : Job → S → List (EngineBackend B) → Type 0
  HasAll job s engines = All (IsEngineInPlace r store event_quiet job bmcs s) engines

  HasAll-moved :
      (job : Job) (engines : List (EngineBackend B)) (s s' : S)
      → ((l : L) → stored s' l ≡ stored s l)
      → HasAll job s engines
      → HasAll job s' engines
  HasAll-moved job engines s s' same =
      All-map (IsEngineInPlace r store event_quiet job bmcs s)
        (IsEngineInPlace r store event_quiet job bmcs s')
        (λ engine.
          All-map _ _ (λ bmc (path, b, there). (path, b, ap password_of (same _) ∙ there)) bmcs)
        engines

  module _ (job : Job) (write : B → String → SecretData → Eff S (Result (Unit {0}))) where
    abbrev AreHealthy : List (EngineBackend B) → Type 0
    AreHealthy engines = All (λ engine. IsHealthy r place stored engine.backend) engines

    sync_engine-again :
        (engine : EngineBackend B) (p : Progress) (s : S)
        → IsHealthy r place stored engine.backend
        → IsEngineInPlace r store event_quiet job bmcs s engine
        → let run = sync_engine (with_write r write) job bmcs engine p s in
          (run ≡ sync_engine r job bmcs engine p s)
          × (run.0.sync_errors ≡ p.sync_errors)
          × ((l : L) → stored run.1 l ≡ stored s l)
    unfolding sync_engine
    sync_engine-again engine p s healthy there =
        let (errors, places) =
          sync_bmcs-InPlace r store engine.backend healthy _ _ engine.path_builder job write bmcs p
            s there in
        (
          sync_bmcs-with_write r store engine.backend healthy _ _ engine.path_builder job write bmcs
              p s there,
          errors,
          places,
        )

    sync_engines-again_from :
        (engines : List (EngineBackend B)) (p : Progress) (s : S)
        → AreHealthy engines
        → HasAll job s engines
        → let run = sync_engines (with_write r write) job bmcs engines p s in
          (run ≡ sync_engines r job bmcs engines p s)
          × (run.0.sync_errors ≡ p.sync_errors)
          × ((l : L) → stored run.1 l ≡ stored s l)
    unfolding sync_engines
    sync_engines-again_from [] p s healthy there = (refl, refl, λ l. refl)
    sync_engines-again_from (engine ∷ rest) p s (healthy, others) (here, there) =
        let (p', s') = sync_engine (with_write r write) job bmcs engine p s in
        let (run, errors, places) = sync_engine-again engine p s healthy here in
        let (runs, more_errors, more_places) =
          sync_engines-again_from rest p' s' others (HasAll-moved job rest s s' places there) in
        (
          runs ∙ ap (λ (q : Progress × S). sync_engines r job bmcs rest q.0 q.1) run,
          more_errors ∙ errors,
          λ l. more_places l ∙ places l,
        )

  -- Given stores that events leave alone and that answer existence tests and reads: after a
  -- multi-engine pass with no error, a second pass (under its own sync time) has no error either,
  -- never calls WriteSecret (any other function in its place gives the same run) and changes no
  -- place, also where engines or BMCs share places.
  pub sync_engines-again :
      (job : Job) (engines : List (EngineBackend B)) (time : ℕ) (s : S)
      (write : B → String → SecretData → Eff S (Result (Unit {0})))
      → All (λ engine. IsHealthy r place stored engine.backend) engines
      → (sync_engines r job bmcs engines no_progress s).0.sync_errors ≡ 0
      → let s1 = (sync_engines r job bmcs engines no_progress s).1 in
        let later = record job { sync_time = time } in
        let run = sync_engines (with_write r write) later bmcs engines no_progress s1 in
        (run ≡ sync_engines r later bmcs engines no_progress s1)
        × (run.0.sync_errors ≡ 0)
        × ((l : L) → stored run.1 l ≡ stored s1 l)
  sync_engines-again job engines time s write healthy clean =
      sync_engines-again_from (record job { sync_time = time }) write engines no_progress
        (sync_engines r job bmcs engines no_progress s).1 healthy
        (sync_engines-IsInPlace r store event_quiet job bmcs engines s clean)
