-- ===== src/Backend/Timed.antt =====
-- The wrappers that record metrics keep the contract of what they wrap.
use bmc_secret_operator.Base.{
  ◌≡◌, ap, sym, ◌∙◌, inl, inr, ℕ, ◌-◌, String, Bool, Option, Error, error_of, Result,
}
use bmc_secret_operator.Base.Effect.{Eff}
use bmc_secret_operator.Interface.{MetricsCollector, SecretData}
use bmc_secret_operator.Interface.Store.{IsQuiet, is_some}
use bmc_secret_operator.Vault.Client.{VaultApi}
use bmc_secret_operator.Backend.{timed}
use bmc_secret_operator.Backend.Shelf.{IsShelf}

module _ {S C L : Type 0} (api : VaultApi S C) (collector : Option (MetricsCollector S))
    (stored : S → L → Option SecretData) (now_quiet : IsQuiet stored api.now) where
  -- The state in which the wrapped call runs.
  abbrev started : S → S
  started s = (api.now s).1

  timed-frame :
      {A : Type 0} (record_op : ℕ → Option Error → Eff S (Unit {0})) (m : Eff S (Result A))
      → ((n : ℕ) (e : Option Error) → IsQuiet stored (record_op n e))
      → (s : S) (l : L)
      → stored (timed api collector record_op m s).1 l ≡ stored (m (started s)).1 l
  unfolding timed
  timed-frame record_op m quiet s l =
      let (start, s1) = api.now s in
      let (r, s2) = m s1 in
      let (end, s3) = api.now s2 in quiet (end - start) (error_of r) s3 l ∙ now_quiet s2 l

  module _ (place : String → L) (Plain : String → Type 0)
      (write : String → SecretData → Eff S (Result (Unit {0})))
      (read : String → Eff S (Result (Option SecretData)))
      (delete : String → Eff S (Result (Unit {0}))) (exists : String → Eff S (Result Bool))
      (shelf : IsShelf stored place Plain write read delete exists)
      (record_op : String → ℕ → Option Error → Eff S (Unit {0}))
      (quiet : (operation : String) (n : ℕ) (e : Option Error)
        → IsQuiet stored (record_op operation n e)) where
    pub timed-IsShelf :
        IsShelf stored place Plain
          (λ path content. timed api collector (record_op "write") (write path content))
          (λ path. timed api collector (record_op "read") (read path))
          (λ path. timed api collector (record_op "delete") (delete path))
          (λ path. timed api collector (record_op "exists") (exists path))
    unfolding timed
    timed-IsShelf = record {
      exists_value = λ path s e plain h.
          shelf.exists_value path (started s) e plain h ∙ ap is_some (now_quiet s (place path));
      exists_frame = λ path s l.
          timed-frame (record_op "exists") (exists path) (quiet "exists") s l
          ∙ shelf.exists_frame path (started s) l
          ∙ now_quiet s l;
      read_value = λ path s content h.
          sym (now_quiet s (place path)) ∙ shelf.read_value path (started s) content h;
      read_frame = λ path s l.
          timed-frame (record_op "read") (read path) (quiet "read") s l
          ∙ shelf.read_frame path (started s) l
          ∙ now_quiet s l;
      write_value = λ path content s h.
          timed-frame (record_op "write") (write path content) (quiet "write") s (place path)
          ∙ shelf.write_value path content (started s) h;
      write_frame = λ path content s l.
          let after = timed-frame (record_op "write") (write path content) (quiet "write") s l in
          elim (shelf.write_frame path content (started s) l) [
            | inl same ↦ inl (after ∙ same ∙ now_quiet s l)
            | inr (here, there) ↦ inr (here, after ∙ there)
          ];
      delete_value = λ path s h.
          timed-frame (record_op "delete") (delete path) (quiet "delete") s (place path)
          ∙ shelf.delete_value path (started s) h;
      delete_frame = λ path s l.
          let after = timed-frame (record_op "delete") (delete path) (quiet "delete") s l in
          elim (shelf.delete_frame path (started s) l) [
            | inl same ↦ inl (after ∙ same ∙ now_quiet s l)
            | inr (here, there) ↦ inr (here, after ∙ there)
          ];
    }
