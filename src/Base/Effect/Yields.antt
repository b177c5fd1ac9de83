-- ===== src/Base/Effect/Yields.antt =====
-- A property of every value that an effect can return.
use mathlib.Core.Bool.{Bool, true, false}
use bmc_secret_operator.Base.Core.{Error, Result, ok, err, if◌then◌else◌}
use bmc_secret_operator.Base.Effect.{Eff, ◌>>=◌, ◌>>◌, handle, attempt, pure}

pub record Yields {ℓ κ ι} {S : Type ℓ} {A : Type κ} (P : A → Type ι) (m : Eff S A)
    : Type (ℓ ⊔ ι) where
  pub at : (s : S) → P (m s).0

module _ {ℓ κ ι} {S : Type ℓ} {A : Type κ} {P : A → Type ι} where
  pub Yields-pure : {a : A} → P a → Yields P (pure {S = S} a)
  Yields-pure h = record { at = λ s. h }

  pub Yields->> : (m : Eff S (Unit {0})) {k : Eff S A} → Yields P k → Yields P (m >> k)
  Yields->> m h = record { at = λ s. h.at (m s).1 }

  pub Yields-if :
      (b : Bool) {m k : Eff S A} → Yields P m → Yields P k → Yields P (if b then m else k)
  Yields-if true h g = h
  Yields-if false h g = g

module _ {ℓ κ ι μ} {S : Type ℓ} {A : Type κ} {C : Type μ} {P : A → Type ι} where
  pub Yields-bind :
      (m : Eff S C) {k : C → Eff S A} → ((c : C) → Yields P (k c)) → Yields P (m >>= k)
  Yields-bind m h = record { at = λ s. (h (m s).0).at (m s).1 }

  Yields-handle :
      (r : Result C) {fail : Error → Eff S A} {rest : C → Eff S A}
      → ((e : Error) → Yields P (fail e))
      → ((c : C) → Yields P (rest c))
      → Yields P (handle r fail rest)
  Yields-handle (ok c) f g = g c
  Yields-handle (err e) f g = f e

  pub Yields-attempt :
      (m : Eff S (Result C)) {fail : Error → Eff S A} {rest : C → Eff S A}
      → ((e : Error) → Yields P (fail e))
      → ((c : C) → Yields P (rest c))
      → Yields P (attempt m fail rest)
  Yields-attempt m f g = record { at = λ s. (Yields-handle (m s).0 f g).at (m s).1 }
