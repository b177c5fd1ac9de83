-- ===== src/Interface/Store.antt =====
-- What the reconciler relies on of a backend: it is a store. `L` is the type of places; `place` is
-- where a backend keeps a path, and two backends, or two paths, may share one. A call that fails may
-- still have taken effect, as a request that times out does.
use bmc_secret_operator.Base.{◌≡◌, ◌⊎◌, String, Bool, true, false, Option, none, some, ok}
use bmc_secret_operator.Base.Effect.{Eff}
use bmc_secret_operator.Interface.{BackendInterface, SecretData}

abbrev pub is_some {ℓ} : {A : Type ℓ} → Option A → Bool
is_some none = false
is_some (some _) = true

module _ {S B L : Type 0} where
  -- A read that returns has the content of the place; neither it nor the existence test, which
  -- says whether there is content, changes a place. A write or a deletion that returns is in
  -- effect, and touches no other place.
  pub record IsStore (m : BackendInterface S B) (place : B → String → L)
      (stored : S → L → Option SecretData) : Type 0 where
    pub exists_value :
        (b : B) (path : String) (s : S) (e : Bool)
        → (m.secret_exists b path s).0 ≡ ok e
        → e ≡ is_some (stored s (place b path))
    pub exists_frame :
        (b : B) (path : String) (s : S) (l : L) → stored (m.secret_exists b path s).1 l ≡ stored s l
    pub read_value :
        (b : B) (path : String) (s : S) (content : Option SecretData)
        → (m.read_secret b path s).0 ≡ ok content
        → stored s (place b path) ≡ content
    pub read_frame :
        (b : B) (path : String) (s : S) (l : L) → stored (m.read_secret b path s).1 l ≡ stored s l
    pub write_value :
        (b : B) (path : String) (content : SecretData) (s : S)
        → (m.write_secret b path content s).0 ≡ ok tt
        → stored (m.write_secret b path content s).1 (place b path) ≡ some content
    pub write_frame :
        (b : B) (path : String) (content : SecretData) (s : S) (l : L)
        → (stored (m.write_secret b path content s).1 l ≡ stored s l)
          ⊎ ((l ≡ place b path) × (stored (m.write_secret b path content s).1 l ≡ some content))
    pub delete_value :
        (b : B) (path : String) (s : S)
        → (m.delete_secret b path s).0 ≡ ok tt
        → stored (m.delete_secret b path s).1 (place b path) ≡ none
    pub delete_frame :
        (b : B) (path : String) (s : S) (l : L)
        → (stored (m.delete_secret b path s).1 l ≡ stored s l)
          ⊎ ((l ≡ place b path) × (stored (m.delete_secret b path s).1 l ≡ none))

module _ {S L : Type 0} where
  -- A call that has nothing to do with the places.
  abbrev pub IsQuiet {κ} : {A : Type κ} → (S → L → Option SecretData) → Eff S A → Type 0
  IsQuiet stored m = (s : S) (l : L) → stored (m s).1 l ≡ stored s l
