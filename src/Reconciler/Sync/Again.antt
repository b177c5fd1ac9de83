-- ===== src/Reconciler/Sync/Again.antt =====
-- A second pass of `reconcileSingleEngine`'s loop.
pub mod Engines
use bmc_secret_operator.Base.{
  ℕ, ◌≡◌, ◌∙◌, refl, sym, subst, ap, String, Bool, true, false, Option, none, some, List, [], ◌∷◌,
}
use bmc_secret_operator.Base.{All, All-map, Error, Result, ok, eq_refl}
use bmc_secret_operator.Base.Effect.{Eff}
use bmc_secret_operator.Base.Dict.{lookup}
use bmc_secret_operator.Api.Metal.{Bmc}
use bmc_secret_operator.PathBuilder.{PathBuilder, build}
use bmc_secret_operator.Interface.{SecretData}
use bmc_secret_operator.Interface.Store.{IsStore, IsQuiet, is_some}
use bmc_secret_operator.Reconciler.{BmcSecretReconciler}
use bmc_secret_operator.Reconciler.Sync.{
  Progress, no_progress, Job, path_synced, password_of, needs_update, sync_bmc, sync_bmcs,
  sync_single,
}
use bmc_secret_operator.Reconciler.Sync.Round.{variables}
use bmc_secret_operator.Reconciler.Sync.Password.{needs_update-IsQuiet, sync_bmcs-IsInPlace}

-- The same reconciler with another `WriteSecret`.
abbrev pub with_write :
    {S B : Type 0}
    → BmcSecretReconciler S B
    → (B → String → SecretData → Eff S (Result (Unit {0})))
    → BmcSecretReconciler S B
with_write r write = record r { backends = record r.backends { write_secret = write } }

-- Existence tests of the backend return, and so do reads where there is content.
pub record IsHealthy {S B L : Type 0} (r : BmcSecretReconciler S B) (place : B → String → L)
    (stored : S → L → Option SecretData) (b : B) : Type 0 where
  pub exists_returns :
      (path : String) (s : S) → (e : Bool) × ((r.backends.secret_exists b path s).0 ≡ ok e)
  pub read_returns :
      (path : String) (s : S)
      → is_some (stored s (place b path)) ≡ true
      → (content : Option SecretData) × ((r.backends.read_secret b path s).0 ≡ ok content)

is_some_of_password :
    (content : Option SecretData) (password : String)
    → password_of content ≡ some password
    → is_some content ≡ true
unfolding lookup
is_some_of_password none password h = cc
is_some_of_password (some content) password h = refl

module _ {S B L : Type 0} (r : BmcSecretReconciler S B) {place : B → String → L}
    {stored : S → L → Option SecretData} (store : IsStore r.backends place stored) (backend : B)
    (healthy : IsHealthy r place stored backend) where
  -- Where the password is in place, the check returns that nothing is needed.
  needs_update-InPlace :
      (path password : String) (s : S)
      → password_of (stored s (place backend path)) ≡ some password
      → (needs_update r backend path password s).0 ≡ ok false
  unfolding needs_update
  needs_update-InPlace path password s h =
      let there = is_some_of_password _ password h in
      let (e, x) = healthy.exists_returns path s in
      let x' : (r.backends.secret_exists backend path s).0 ≡ ok true =
        x ∙ ap ok (store.exists_value backend path s e x ∙ there) in
      let s1 = (r.backends.secret_exists backend path s).1 in
      let (content, y) =
        healthy.read_returns path s1
          (ap is_some (store.exists_frame backend path s (place backend path)) ∙ there) in
      let same : content ≡ stored s (place backend path) =
        sym (store.read_value backend path s1 content y)
        ∙ store.exists_frame backend path s (place backend path) in
      rw (x', y, needs_update) (rw (same, h) (rw eq_refl))

  module _ (message : Error → String) (report : String → Error → Eff S (Unit {0}))
      (path_builder : PathBuilder) (job : Job)
      (write : B → String → SecretData → Eff S (Result (Unit {0}))) where
    abbrev InPlace : S → Bmc → Type 0
    InPlace s bmc =
        (path : String) × (build path_builder (variables job bmc) ≡ ok path)
        × (password_of (stored s (place backend path)) ≡ some job.password)

    -- One round finds the password, whatever a write would do, and changes no place.
    sync_bmc-InPlace :
        (bmc : Bmc) (p : Progress) (s : S)
        → (h : InPlace s bmc)
        → sync_bmc (with_write r write) message report backend path_builder job bmc p s
          ≡ (path_synced job bmc h.0 p, (needs_update r backend h.0 job.password s).1)
    unfolding sync_bmc
    sync_bmc-InPlace bmc p s (path, b, there) =
        rw (b, sync_bmc)
          (rw (needs_update-InPlace path job.password s there, needs_update, sync_bmc))

    sync_bmc-InPlace_itself :
        (bmc : Bmc) (p : Progress) (s : S)
        → (h : InPlace s bmc)
        → sync_bmc r message report backend path_builder job bmc p s
          ≡ (path_synced job bmc h.0 p, (needs_update r backend h.0 job.password s).1)
    unfolding sync_bmc
    sync_bmc-InPlace_itself bmc p s (path, b, there) =
        rw (b, sync_bmc)
          (rw (needs_update-InPlace path job.password s there, needs_update, sync_bmc))

    abbrev again : List Bmc → Progress → S → Progress × S
    again = sync_bmcs (with_write r write) message report backend path_builder job

    again_step :
        (bmc : Bmc) (rest : List Bmc) (p : Progress) (s : S)
        → (h : InPlace s bmc)
        → again (bmc ∷ rest) p s
          ≡ again rest (path_synced job bmc h.0 p) (needs_update r backend h.0 job.password s).1
    unfolding sync_bmcs
    again_step bmc rest p s h = rw (sync_bmc-InPlace bmc p s h)

    moved_InPlace :
        (s s' : S)
        → ((l : L) → stored s' l ≡ stored s l)
        → (bmcs : List Bmc) → All (InPlace s) bmcs
        → All (InPlace s') bmcs
    moved_InPlace s s' same bmcs =
        All-map _ _ (λ bmc (path, b, there). (path, b, ap password_of (same _) ∙ there)) bmcs

    pub sync_bmcs-InPlace :
        (bmcs : List Bmc) (p : Progress) (s : S)
        → All (InPlace s) bmcs
        → ((again bmcs p s).0.sync_errors ≡ p.sync_errors)
          × ((l : L) → stored (again bmcs p s).1 l ≡ stored s l)
    unfolding sync_bmcs path_synced
    sync_bmcs-InPlace [] p s h = (refl, λ l. refl)
    sync_bmcs-InPlace (bmc ∷ rest) p s ((path, b, there), h) =
        let p' = path_synced job bmc path p in
        let s' = (needs_update r backend path job.password s).1 in
        let same = needs_update-IsQuiet r store backend path job.password s in
        let (errors, places) = sync_bmcs-InPlace rest p' s' (moved_InPlace s s' same rest h) in
        subst
          (λ (q : Progress × S).
            (q.0.sync_errors ≡ p.sync_errors) × ((l : L) → stored q.1 l ≡ stored s l))
          (sym (again_step bmc rest p s (path, b, there))) (errors, λ l. places l ∙ same l)

    -- Whatever a write does, it is not called.
    pub sync_bmcs-with_write :
        (bmcs : List Bmc) (p : Progress) (s : S)
        → All (InPlace s) bmcs
        → again bmcs p s ≡ sync_bmcs r message report backend path_builder job bmcs p s
    unfolding sync_bmcs
    sync_bmcs-with_write [] p s h = refl
    sync_bmcs-with_write (bmc ∷ rest) p s ((path, b, there), h) =
        let s' = (needs_update r backend path job.password s).1 in
        let same = needs_update-IsQuiet r store backend path job.password s in
        rw
          (
            sync_bmc-InPlace bmc p s (path, b, there),
            sync_bmc-InPlace_itself bmc p s (path, b, there),
          )
          (sync_bmcs-with_write rest (path_synced job bmc path p) s'
            (moved_InPlace s s' same rest h))

module _ {S B L : Type 0} (r : BmcSecretReconciler S B) {place : B → String → L}
    {stored : S → L → Option SecretData} (store : IsStore r.backends place stored)
    (event_quiet : (name type reason text : String)
      → IsQuiet stored (r.event name type reason text))
    (backend : B) (healthy : IsHealthy r place stored backend) (path_builder : PathBuilder)
    (job : Job) (bmcs : List Bmc) where
  -- Given a store that events leave alone and that answers existence tests and reads: after a
  -- single-engine pass with no error, a second pass (under its own sync time) has no error either,
  -- never calls WriteSecret (any other function in its place gives the same run) and changes no
  -- place.
  pub sync_single-again :
      (time : ℕ) (s : S) (write : B → String → SecretData → Eff S (Result (Unit {0})))
      → (sync_single r backend path_builder job bmcs s).0.sync_errors ≡ 0
      → let s1 = (sync_single r backend path_builder job bmcs s).1 in
        let later = record job { sync_time = time } in
        let run = sync_single (with_write r write) backend path_builder later bmcs s1 in
        (run ≡ sync_single r backend path_builder later bmcs s1)
        × (run.0.sync_errors ≡ 0)
        × ((l : L) → stored run.1 l ≡ stored s1 l)
  unfolding sync_single
  sync_single-again time s write clean =
      let s1 = (sync_single r backend path_builder job bmcs s).1 in
      let later : Job = record job { sync_time = time } in
      let there =
        sync_bmcs-IsInPlace r store _ _ (λ path e. event_quiet _ _ _ _) backend path_builder job
          bmcs no_progress s clean in
      let (errors, places) =
        sync_bmcs-InPlace r store backend healthy _ _ path_builder later write bmcs no_progress s1
          there in
      (
        sync_bmcs-with_write r store backend healthy _ _ path_builder later write bmcs no_progress
            s1 there,
        errors,
        places,
      )
