-- ===== src/Reconciler/Sync/Password.antt =====
-- What a backend holds after the sync loops, given that backends are stores.
use bmc_secret_operator.Base.{
  ◌≤◌, ◌≡◌, ◌∙◌, inl, inr, refl, sym, String, Bool, true, false, Option, some, List, [], ◌∷◌,
}
use bmc_secret_operator.Base.{
  arith, All, Error, Result, ok, ◌↔◌, eq_iff, Result-cases, Option-cases,
}
use bmc_secret_operator.Base.Effect.{Eff}
use bmc_secret_operator.Base.Dict.{lookup}
use bmc_secret_operator.Api.Metal.{Bmc}
use bmc_secret_operator.PathBuilder.{PathBuilder, build}
use bmc_secret_operator.Interface.{SecretData}
use bmc_secret_operator.Interface.Store.{IsStore, IsQuiet}
use bmc_secret_operator.Reconciler.{BmcSecretReconciler}
use bmc_secret_operator.Reconciler.Sync.{
  Progress, Job, path_failed, path_synced, password_of, secret_data, needs_update, sync_bmc,
  sync_bmcs,
}
use bmc_secret_operator.Reconciler.Sync.Round.{
  Round, not_built, not_checked, up_to_date, not_written, is_written, sync_bmc-Round, variables,
  checked, written,
}

module _ {S B L : Type 0} (r : BmcSecretReconciler S B) {place : B → String → L}
    {stored : S → L → Option SecretData} (store : IsStore r.backends place stored) where
  -- The check changes no place.
  pub needs_update-IsQuiet :
      (b : B) (path password : String)
      → IsQuiet {A = Result Bool} stored (needs_update r b path password)
  unfolding needs_update
  needs_update-IsQuiet b path password s l = ground (
    arith,
    store.exists_frame b path s l,
    store.read_frame b path (r.backends.secret_exists b path s).1 l,
  )

  -- Given a backend that is a store: a check that returns says that nothing is needed exactly if
  -- the password at the path's place is the secret's, as a string; a missing one, or one of another
  -- type, needs an update.
  pub needs_update_exact :
      (b : B) (path password : String) (s : S) (needed : Bool)
      → (needs_update r b path password s).0 ≡ ok needed
      → ((needed ≡ false) ↔ (password_of (stored s (place b path)) ≡ some password))
  unfolding needs_update
  needs_update_exact b path password s needed h =
      elim (Result-cases (r.backends.secret_exists b path s).0) [
        | inr (e, x) ↦ cc (rw (x, needs_update) at h)
        | inl (false, x) ↦ ground (arith, store.exists_value b path s false x)
        | inl (true, x) ↦
            let (_, s1) = r.backends.secret_exists b path s in
            elim (Result-cases (r.backends.read_secret b path s1).0) [
              | inr (e, y) ↦ cc (rw (x, y, needs_update) at h)
              | inl (content, y) ↦ elim (Option-cases (password_of content)) [
                | inl e ↦ ground (
                  arith,
                  store.read_value b path s1 content y,
                  store.exists_frame b path s (place b path),
                )
                | inr (current, e) ↦ ground (
                  arith,
                  store.read_value b path s1 content y,
                  store.exists_frame b path s (place b path),
                  eq_iff current password,
                )
              ]
            ]
      ]

module _ {S B L : Type 0} (r : BmcSecretReconciler S B) {place : B → String → L}
    {stored : S → L → Option SecretData} (store : IsStore r.backends place stored)
    (message : Error → String) (report : String → Error → Eff S (Unit {0}))
    (quiet : (path : String) (e : Error) → IsQuiet stored (report path e)) (backend : B)
    (path_builder : PathBuilder) (job : Job) where
  pub checked-IsQuiet : (path : String) → IsQuiet stored (needs_update r backend path job.password)
  checked-IsQuiet path = needs_update-IsQuiet r store backend path job.password

  pub written_frame :
      (path : String) (s : S) (l : L)
      → password_of (stored s l) ≡ some job.password
      → password_of (stored (written r message report backend path_builder job path s).1 l)
        ≡ some job.password
  unfolding lookup
  written_frame path s l h =
      let s1 = (needs_update r backend path job.password s).1 in
      elim (store.write_frame backend path (secret_data job) s1 l) [
        | inl same ↦ rw (same, checked-IsQuiet path s l) h
        | inr (_, new) ↦ rw new
      ]

  -- What the two successful ways of a round leave at the path's place.
  pub checked-Holds :
      (path : String) (s : S)
      → (checked r message report backend path_builder job path s).0 ≡ ok false
      → password_of
          (stored (checked r message report backend path_builder job path s).1 (place backend path))
        ≡ some job.password
  checked-Holds path s c =
      rw (checked-IsQuiet path s (place backend path))
        ((needs_update_exact r store backend path job.password s false c).0 refl)

  pub written-Holds :
      (path : String) (s : S)
      → (written r message report backend path_builder job path s).0 ≡ ok tt
      → password_of
          (stored (written r message report backend path_builder job path s).1 (place backend path))
        ≡ some job.password
  unfolding lookup
  written-Holds path s w = rw (
      store.write_value backend path (secret_data job)
        (needs_update r backend path job.password s).1 w)

  -- A place that has the job's password keeps it.
  pub Round-keeps :
      {bmc : Bmc} {p p' : Progress} {s s' : S}
      → Round r message report backend path_builder job bmc p s p' s'
      → (l : L) → password_of (stored s l) ≡ some job.password
      → password_of (stored s' l) ≡ some job.password
  Round-keeps (not_built e _) l h = h
  Round-keeps {s} (not_checked path _ _ _) l h = rw (checked-IsQuiet path s l) h
  Round-keeps {s} (up_to_date path _ _) l h = rw (checked-IsQuiet path s l) h
  Round-keeps {s} (not_written path e _ _ _) l h = rw (quiet path e _ l) (written_frame path s l h)
  Round-keeps {s} (is_written path _ _ _) l h = written_frame path s l h

  -- The place of the BMC's path has the password.
  abbrev pub IsInPlace : S → Bmc → Type 0
  IsInPlace s bmc =
      (path : String) × (build path_builder (variables job bmc) ≡ ok path)
      × (password_of (stored s (place backend path)) ≡ some job.password)

  pub Round-IsInPlace :
      {bmc : Bmc} {p p' : Progress} {s s' : S}
      → Round r message report backend path_builder job bmc p s p' s'
      → (p.sync_errors ≤ p'.sync_errors) × (p'.sync_errors ≡ p.sync_errors → IsInPlace s' bmc)
  unfolding path_failed path_synced
  Round-IsInPlace (not_built e _) = (omega arith, λ h. absurd (omega arith))
  Round-IsInPlace (not_checked path _ _ _) = (omega arith, λ h. absurd (omega arith))
  Round-IsInPlace {s} (up_to_date path b c) = (omega arith, λ _. (path, b, checked-Holds path s c))
  Round-IsInPlace (not_written path e _ _ _) = (omega arith, λ h. absurd (omega arith))
  Round-IsInPlace {s} (is_written path b _ w) =
      (omega arith, λ _. (path, b, written-Holds path s w))

  pub sync_bmcs-keeps :
      (bmcs : List Bmc) (p : Progress) (s : S) (l : L)
      → password_of (stored s l) ≡ some job.password
      → password_of (stored (sync_bmcs r message report backend path_builder job bmcs p s).1 l)
        ≡ some job.password
  unfolding sync_bmcs
  sync_bmcs-keeps [] p s l h = h
  sync_bmcs-keeps (bmc ∷ rest) p s l h =
      let (p', s') = sync_bmc r message report backend path_builder job bmc p s in
      sync_bmcs-keeps rest p' s' l
        (Round-keeps (sync_bmc-Round r message report backend path_builder job bmc p s) l h)

  pub sync_bmcs-errors :
      (bmcs : List Bmc) (p : Progress) (s : S)
      → p.sync_errors ≤ (sync_bmcs r message report backend path_builder job bmcs p s).0.sync_errors
  unfolding sync_bmcs
  sync_bmcs-errors [] p s = omega arith
  sync_bmcs-errors (bmc ∷ rest) p s =
      let (p', s') = sync_bmc r message report backend path_builder job bmc p s in
      omega (
        arith,
        (Round-IsInPlace (sync_bmc-Round r message report backend path_builder job bmc p s)).0,
        sync_bmcs-errors rest p' s',
      )

  -- If the loop counted no further error, every BMC's secret is in place at its end.
  pub sync_bmcs-IsInPlace :
      (bmcs : List Bmc) (p : Progress) (s : S)
      → (sync_bmcs r message report backend path_builder job bmcs p s).0.sync_errors ≡ p.sync_errors
      → All (IsInPlace (sync_bmcs r message report backend path_builder job bmcs p s).1) bmcs
  unfolding sync_bmcs
  sync_bmcs-IsInPlace [] p s h = tt
  sync_bmcs-IsInPlace (bmc ∷ rest) p s h =
      let (p', s') = sync_bmc r message report backend path_builder job bmc p s in
      let round =
        Round-IsInPlace (sync_bmc-Round r message report backend path_builder job bmc p s) in
      let same : p'.sync_errors ≡ p.sync_errors =
        omega (arith, round.0, sync_bmcs-errors rest p' s') in
      let (path, b, there) = round.1 same in
      (
        (path, b, sync_bmcs-keeps rest p' s' (place backend path) there),
        sync_bmcs-IsInPlace rest p' s' (h ∙ sym same),
      )
