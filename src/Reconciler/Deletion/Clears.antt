-- ===== src/Reconciler/Deletion/Clears.antt =====
-- What the cleanup does to the backends' contents.
use bmc_secret_operator.Base.{
  ◌⊎◌, ◌≡◌, ◌≢◌, sym, subst, ◌∙◌, refl, String, Option, none, List, [], ◌∷◌,
}
use bmc_secret_operator.Base.{All, Error, Result, ok, err, inl, inr, Result-cases}
use bmc_secret_operator.Base.Effect.{pure, ignore}
use bmc_secret_operator.Base.Effect.Keeps.{Keeps, Keeps-pure, Keeps->>}
use bmc_secret_operator.Api.Metal.{Bmc, BmcSecret}
use bmc_secret_operator.PathBuilder.{PathBuilder, PathVariables, build}
use bmc_secret_operator.Interface.{SecretData}
use bmc_secret_operator.Interface.Store.{IsStore}
use bmc_secret_operator.Resolver.{extract_region_from_bmc, get_hostname_from_bmc}
use bmc_secret_operator.Reconciler.{BmcSecretReconciler}
use bmc_secret_operator.Reconciler.Deletion.Kept.{handle_deletion-Kept}
use bmc_secret_operator.Reconciler.Kept.{Kept}
use bmc_secret_operator.Reconciler.Quiet.{IsQuietAround}
use bmc_secret_operator.Reconciler.Deletion.{delete_bmc, delete_secrets, handle_deletion}

abbrev pub deletion_variables : Bmc → String → String → PathVariables
deletion_variables bmc region_label_key username = record {
  region = extract_region_from_bmc bmc region_label_key;
  hostname = get_hostname_from_bmc bmc;
  username = username;
}

module _ {S B L : Type 0} (r : BmcSecretReconciler S B) {place : B → String → L}
    {stored : S → L → Option SecretData} (store : IsStore r.backends place stored) (backend : B)
    (path_builder : PathBuilder) (key username : String) where
  delete_bmc-keeps_none :
      (bmc : Bmc) (s : S) (l : L)
      → stored s l ≡ none
      → stored (delete_bmc r backend path_builder key username bmc s).1 l ≡ none
  unfolding delete_bmc
  delete_bmc-keeps_none bmc s l h =
      elim (Result-cases (build path_builder (deletion_variables bmc key username))) [
        | inr (e, b) ↦ rw (b, delete_bmc) h
        | inl (path, b) ↦
            rw (b, delete_bmc)
              (elim (store.delete_frame backend path s l) [
                | inl same ↦ same ∙ h
                | inr (_, gone) ↦ gone
              ])
      ]

  delete_secrets-keeps_none :
      (bmcs : List Bmc) (s : S) (l : L)
      → stored s l ≡ none
      → stored (delete_secrets r backend path_builder key username bmcs s).1 l ≡ none
  unfolding delete_secrets
  delete_secrets-keeps_none [] s l h = h
  delete_secrets-keeps_none (bmc ∷ rest) s l h =
      delete_secrets-keeps_none rest _ l (delete_bmc-keeps_none bmc s l h)

  abbrev pub IsCleared : S → Bmc → Type 0
  IsCleared s bmc =
      let built = build path_builder (deletion_variables bmc key username) in
      ((e : Error) × (built ≡ err e))
      ⊎ ((path : String) × (built ≡ ok path) × (stored s (place backend path) ≡ none))

  -- Given a store whose deletions return: for each of the BMCs the path could not be built, or the
  -- backend holds nothing at it after the cleanup's loop.
  pub delete_secrets-clears :
      ((path : String) (s : S) → (r.backends.delete_secret backend path s).0 ≡ ok tt)
      → (bmcs : List Bmc) (s : S)
      → All (IsCleared (delete_secrets r backend path_builder key username bmcs s).1) bmcs
  unfolding delete_secrets delete_bmc
  delete_secrets-clears returns [] s = tt
  delete_secrets-clears returns (bmc ∷ rest) s = (
    elim (Result-cases (build path_builder (deletion_variables bmc key username))) [
      | inr failed ↦ inl failed
      | inl (path, b) ↦ inr (
        path,
        b,
        delete_secrets-keeps_none rest _ _
            (rw (b, delete_bmc) (store.delete_value backend path s (returns path s))),
      )
    ],
    delete_secrets-clears returns rest _,
  )

  -- A place that is none of the backend's is as it was.
  delete_bmc-Keeps :
      (P : Option SecretData → Type 0) (l : L)
      → ((path : String) → l ≢ place backend path)
      → (bmc : Bmc)
      → Keeps (λ s. P (stored s l)) (delete_bmc r backend path_builder key username bmc)
  unfolding delete_bmc
  delete_bmc-Keeps P l apart bmc = one (build path_builder (deletion_variables bmc key username))
    where
      one :
          (built : Result String)
          → Keeps
              (λ s. P (stored s l))
              (elim built [
                | err _ ↦ pure tt
                | ok path ↦ ignore (r.backends.delete_secret backend path)
              ])
      one (err e) = Keeps-pure tt
      one (ok path) = record {
        at = λ s h. elim (store.delete_frame backend path s l) [
          | inl same ↦ subst P (sym same) h
          | inr (same, _) ↦ absurd (apart path same)
        ];
      }

  pub delete_secrets-Keeps :
      (P : Option SecretData → Type 0) (l : L)
      → ((path : String) → l ≢ place backend path)
      → (bmcs : List Bmc)
      → Keeps (λ s. P (stored s l)) (delete_secrets r backend path_builder key username bmcs)
  unfolding delete_secrets
  delete_secrets-Keeps P l apart [] = Keeps-pure tt
  delete_secrets-Keeps P l apart (bmc ∷ rest) =
      Keeps->> (delete_bmc-Keeps P l apart bmc) (delete_secrets-Keeps P l apart rest)

module _ {S B L : Type 0} (r : BmcSecretReconciler S B) {place : B → String → L}
    {stored : S → L → Option SecretData} (store : IsStore r.backends place stored) (l : L)
    (P : Option SecretData → Type 0) (backend : B) (path_builder : PathBuilder)
    (key username : String)
    (empties : (vars : PathVariables) (path : String)
      → build path_builder vars ≡ ok path
      → l ≡ place backend path
      → P none) where
  delete_bmc-Kept :
      (bmc : Bmc) → Kept stored l P (delete_bmc r backend path_builder key username bmc)
  unfolding delete_bmc
  delete_bmc-Kept bmc = one (build path_builder (deletion_variables bmc key username)) refl
    where
      one :
          (built : Result String)
          → build path_builder (deletion_variables bmc key username) ≡ built
          → Kept stored l P (elim built [
            | err _ ↦ pure tt
            | ok path ↦ ignore (r.backends.delete_secret backend path)
          ])
      one (err e) b = Keeps-pure tt
      one (ok path) b = record {
        at = λ s h. elim (store.delete_frame backend path s l) [
          | inl same ↦ subst P (sym same) h
          | inr (here, gone) ↦
              subst P (sym gone) (empties (deletion_variables bmc key username) path b here)
        ];
      }

  -- A property of the place that the empty place has is kept by every deletion.
  pub delete_secrets-Kept :
      (bmcs : List Bmc) → Kept stored l P (delete_secrets r backend path_builder key username bmcs)
  unfolding delete_secrets
  delete_secrets-Kept [] = Keeps-pure tt
  delete_secrets-Kept (bmc ∷ rest) = Keeps->> (delete_bmc-Kept bmc) (delete_secrets-Kept rest)

-- Given stores, and surroundings that leave them alone: the deletion of a BMCSecret changes no
-- place but those of the one backend that GetBackend returns, so what was synced to a secret engine
-- with places of its own stays.
pub handle_deletion-keeps_engines :
    {S B L : Type 0} (r : BmcSecretReconciler S B) {place : B → String → L}
    {stored : S → L → Option SecretData}
    → IsStore r.backends place stored
    → IsQuietAround r stored
    → (l : L)
    → ((b : B) (s : S)
        → (r.backend_factory.get_backend s).0 ≡ ok b
        → (path : String) → l ≢ place b path)
    → (secret : BmcSecret) (s : S) → stored (handle_deletion r secret s).1 l ≡ stored s l
handle_deletion-keeps_engines r {stored} store around l apart secret s =
    (handle_deletion-Kept around l (λ c. c ≡ stored s l)
        (λ backend s' got path_builder s'' got' key username.
          delete_secrets-Keeps r store backend path_builder key username (λ c. c ≡ stored s l) l
            (apart backend s' got))
        secret).at
      s refl
