-- ===== src/Base/Effect/Keeps.antt =====
-- Effects that keep a property of the state, one rule for each way to build one.
use mathlib.Core.Bool.{Bool, true, false}
use mathlib.Core.Path.{◌≡◌, refl}
use bmc_secret_operator.Base.Core.{Error, Result, ok, err, if◌then◌else◌}
use bmc_secret_operator.Base.Effect.{Eff, ◌>>=◌, ◌>>◌, handle, attempt, pure}

pub record Keeps {ℓ κ ι} {S : Type ℓ} {A : Type κ} (P : S → Type ι) (m : Eff S A)
    : Type (ℓ ⊔ ι) where
  pub at : (s : S) → P s → P (m s).1

module _ {ℓ κ ι} {S : Type ℓ} {A : Type κ} {P : S → Type ι} where
  pub Keeps-pure : (a : A) → Keeps P (pure {S = S} a)
  Keeps-pure a = record { at = λ s h. h }

  pub Keeps-if : (b : Bool) {m k : Eff S A} → Keeps P m → Keeps P k → Keeps P (if b then m else k)
  Keeps-if true h g = h
  Keeps-if false h g = g

  pub Keeps->> : {m : Eff S (Unit {0})} {k : Eff S A} → Keeps P m → Keeps P k → Keeps P (m >> k)
  Keeps->> h g = record { at = λ s p. g.at _ (h.at s p) }

module _ {ℓ κ ι μ} {S : Type ℓ} {A : Type κ} {C : Type μ} {P : S → Type ι} where
  pub Keeps-bind :
      (m : Eff S C) {k : C → Eff S A} → Keeps P m → ((c : C) → Keeps P (k c)) → Keeps P (m >>= k)
  Keeps-bind m h g = record { at = λ s p. (g _).at _ (h.at s p) }

  -- The rest may use that the call returned what it is given.
  Keeps-handle :
      (r : Result C) {fail : Error → Eff S A} {rest : C → Eff S A}
      → ((e : Error) → Keeps P (fail e))
      → ((c : C) → r ≡ ok c → Keeps P (rest c))
      → Keeps P (handle r fail rest)
  Keeps-handle (ok c) f g = g c refl
  Keeps-handle (err e) f g = f e

  pub Keeps-attempt :
      (m : Eff S (Result C)) {fail : Error → Eff S A} {rest : C → Eff S A}
      → Keeps P m
      → ((e : Error) → Keeps P (fail e))
      → ((s : S) (c : C) → (m s).0 ≡ ok c → Keeps P (rest c))
      → Keeps P (attempt m fail rest)
  Keeps-attempt m h f g = record { at = λ s p. (Keeps-handle (m s).0 f (g s)).at _ (h.at s p) }
