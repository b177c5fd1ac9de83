-- ===== src/Base/Effect.antt =====
-- Code with effects: a function of the state that returns its value and the new state.
pub mod Ends
pub mod Yields
pub mod Keeps
pub mod Leads
use bmc_secret_operator.Base.Core.{Error, Result, ok, err}

abbrev pub Eff {ℓ κ} : Type ℓ → Type κ → Type (ℓ ⊔ κ)
Eff S A = S → A × S

module _ {ℓ κ} {S : Type ℓ} {A : Type κ} where
  abbrev pub pure : A → Eff S A
  pure a s = (a, s)

module _ {ℓ κ ι} {S : Type ℓ} {A : Type κ} {B : Type ι} where
  infixl 5 ◌>>=◌
  abbrev pub ◌>>=◌ : Eff S A → (A → Eff S B) → Eff S B
  ◌>>=◌ m f s = let (a, s') = m s in f a s'

module _ {ℓ κ} {S : Type ℓ} {B : Type κ} where
  infixl 5 ◌>>◌
  abbrev pub ◌>>◌ : Eff S (Unit {0}) → Eff S B → Eff S B
  m >> k = m >>= λ _. k

  -- A call whose result the code does not look at.
  abbrev pub ignore : Eff S B → Eff S (Unit {0})
  ignore m = m >>= λ _. pure tt

module _ {ℓ κ ι} {S : Type ℓ} {A : Type κ} {B : Type ι} where
  -- `a, err := m; if err != nil { return fail(err) }; rest(a)`
  abbrev pub handle : Result A → (Error → Eff S B) → (A → Eff S B) → Eff S B
  handle (ok a) fail rest = rest a
  handle (err e) fail rest = fail e

  abbrev pub attempt : Eff S (Result A) → (Error → Eff S B) → (A → Eff S B) → Eff S B
  attempt m fail rest = m >>= λ r. handle r fail rest
