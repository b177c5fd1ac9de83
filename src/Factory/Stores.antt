-- ===== src/Factory/Stores.antt =====
-- The backends of the factory's world are stores.
use bmc_secret_operator.Base.{◌≡◌, String, Option, some}
use bmc_secret_operator.Interface.{MetricsCollector, SecretData}
use bmc_secret_operator.Interface.Store.{IsQuiet}
use bmc_secret_operator.Backend.{Backend}
use bmc_secret_operator.Backend.Shelf.{IsShelf}
use bmc_secret_operator.Backend.Stores.{IsQuietCollector, IsServed, IsPlainFor, backend-IsShelf}
use bmc_secret_operator.Factory.{Deps, World, outside}
use bmc_secret_operator.Factory.Release.{backend_methods}

module _ {E C L : Type 0} (d : Deps E C) (stored : E → L → Option SecretData)
    (now_quiet : IsQuiet stored d.vault_api.now)
    (quiet : (c : MetricsCollector E) → d.collector ≡ some c → IsQuietCollector c stored) where
  -- Given that the clock and the collector have nothing to do with what Vault holds, and that Vault
  -- has at a backend's mount a KV engine of the version that the backend takes it for: the
  -- operations that the operator gives the reconciler for this backend, wrapped any number of times
  -- or not, are those of a store. A write or a deletion without an error is in effect, one that
  -- fails is or is not, and no other place is touched; a read without an error has the content, and
  -- an existence test without an error is right where the full path does not contain the text
  -- "secret not found". The stub of OpenBao always fails and touches nothing.
  pub backend_methods-IsShelf :
      (place : String → L) (b : Backend C)
      → IsServed d.vault_api stored place b
      → IsShelf {S = World E C}
          (λ w. stored w.outside)
          place
          (IsPlainFor d.vault_api stored place b)
          ((backend_methods d).write_secret b)
          ((backend_methods d).read_secret b)
          ((backend_methods d).delete_secret b)
          ((backend_methods d).secret_exists b)
  unfolding outside
  backend_methods-IsShelf place b served =
      let inner = backend-IsShelf d.vault_api stored now_quiet d.collector quiet place b served in
      record {
        exists_value = λ path w. inner.exists_value path w.outside;
        exists_frame = λ path w. inner.exists_frame path w.outside;
        read_value = λ path w. inner.read_value path w.outside;
        read_frame = λ path w. inner.read_frame path w.outside;
        write_value = λ path content w. inner.write_value path content w.outside;
        write_frame = λ path content w. inner.write_frame path content w.outside;
        delete_value = λ path w. inner.delete_value path w.outside;
        delete_frame = λ path w. inner.delete_frame path w.outside;
      }
