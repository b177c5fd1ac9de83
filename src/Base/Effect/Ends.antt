-- ===== src/Base/Effect/Ends.antt =====
-- Code that, whatever its calls return, ends with one and the same call.
use mathlib.Core.Path.{◌≡◌, refl}
use bmc_secret_operator.Base.Core.{Error, Result, ok, err}
use bmc_secret_operator.Base.Effect.{Eff, ◌>>◌, handle, attempt}

-- Each run of `m` is a run of `last` from some state.
pub record EndsIn {ℓ κ} {S : Type ℓ} {A : Type κ} (last m : Eff S A) : Type (ℓ ⊔ κ) where
  pub from : (s : S) → (s' : S) × (m s ≡ last s')

module _ {ℓ κ} {S : Type ℓ} {A : Type κ} {last : Eff S A} where
  pub EndsIn-last : EndsIn last last
  EndsIn-last = record { from = λ s. (s, refl) }

  pub EndsIn->> : (m : Eff S (Unit {0})) {k : Eff S A} → EndsIn last k → EndsIn last (m >> k)
  EndsIn->> m h = record { from = λ s. h.from (m s).1 }

module _ {ℓ κ ι} {S : Type ℓ} {A : Type κ} {C : Type ι} {last : Eff S A} where
  EndsIn-handle :
      (r : Result C) {fail : Error → Eff S A} {rest : C → Eff S A}
      → ((e : Error) → EndsIn last (fail e))
      → ((c : C) → EndsIn last (rest c))
      → EndsIn last (handle r fail rest)
  EndsIn-handle (ok c) f g = g c
  EndsIn-handle (err e) f g = f e

  pub EndsIn-attempt :
      (m : Eff S (Result C)) {fail : Error → Eff S A} {rest : C → Eff S A}
      → ((e : Error) → EndsIn last (fail e))
      → ((c : C) → EndsIn last (rest c))
      → EndsIn last (attempt m fail rest)
  EndsIn-attempt m f g = record { from = λ s. (EndsIn-handle (m s).0 f g).from (m s).1 }
