-- ===== src/Backend/Shelf.antt =====
-- The contract of one backend value's operations: that of `Interface.Store.IsStore`, but that the
-- existence test is relied on for plain paths only.
use bmc_secret_operator.Base.{◌≡◌, ◌⊎◌, String, Bool, Option, none, some, Result, ok}
use bmc_secret_operator.Base.Effect.{Eff}
use bmc_secret_operator.Interface.{SecretData}
use bmc_secret_operator.Interface.Store.{is_some}

-- A place may be none, of a backend that holds nothing.
pub record IsShelf {S L : Type 0} (stored : S → L → Option SecretData) (place : String → L)
    (Plain : String → Type 0) (write : String → SecretData → Eff S (Result (Unit {0})))
    (read : String → Eff S (Result (Option SecretData)))
    (delete : String → Eff S (Result (Unit {0}))) (exists : String → Eff S (Result Bool))
    : Type 0 where
  pub exists_value :
      (path : String) (s : S) (e : Bool)
      → Plain path
      → (exists path s).0 ≡ ok e
      → e ≡ is_some (stored s (place path))
  pub exists_frame : (path : String) (s : S) (l : L) → stored (exists path s).1 l ≡ stored s l
  pub read_value :
      (path : String) (s : S) (content : Option SecretData)
      → (read path s).0 ≡ ok content
      → stored s (place path) ≡ content
  pub read_frame : (path : String) (s : S) (l : L) → stored (read path s).1 l ≡ stored s l
  pub write_value :
      (path : String) (content : SecretData) (s : S)
      → (write path content s).0 ≡ ok tt
      → stored (write path content s).1 (place path) ≡ some content
  pub write_frame :
      (path : String) (content : SecretData) (s : S) (l : L)
      → (stored (write path content s).1 l ≡ stored s l)
        ⊎ ((l ≡ place path) × (stored (write path content s).1 l ≡ some content))
  pub delete_value :
      (path : String) (s : S)
      → (delete path s).0 ≡ ok tt
      → stored (delete path s).1 (place path) ≡ none
  pub delete_frame :
      (path : String) (s : S) (l : L)
      → (stored (delete path s).1 l ≡ stored s l)
        ⊎ ((l ≡ place path) × (stored (delete path s).1 l ≡ none))
