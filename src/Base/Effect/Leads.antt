-- ===== src/Base/Effect/Leads.antt =====
-- What an effect leads to from the states that have a property, one rule for each way to build one.
use mathlib.Core.Path.{◌≡◌}
use bmc_secret_operator.Base.Core.{Error, Result, ok}
use bmc_secret_operator.Base.Effect.{Eff, ◌>>=◌, ◌>>◌, attempt, pure}

pub record Leads {ℓ κ ι μ} {S : Type ℓ} {A : Type κ} (P : S → Type ι) (m : Eff S A)
    (Q : A → S → Type μ) : Type (ℓ ⊔ ι ⊔ μ) where
  pub at : (s : S) → P s → Q (m s).0 (m s).1

module _ {ℓ κ ι μ} {S : Type ℓ} {A : Type κ} {P : S → Type ι} {Q : A → S → Type μ} where
  pub Leads-pure : (a : A) → ((s : S) → P s → Q a s) → Leads P (pure a) Q
  Leads-pure a h = record { at = h }

  -- A first step that keeps the property.
  pub Leads->> :
      (m : Eff S (Unit {0})) {k : Eff S A}
      → ((s : S) → P s → P (m s).1)
      → Leads P k Q
      → Leads P (m >> k) Q
  Leads->> m keep h = record { at = λ s p. h.at (m s).1 (keep s p) }

module _ {ℓ κ ι ν μ υ} {S : Type ℓ} {A : Type κ} {C : Type υ} {P : S → Type ι} {R : C → S → Type ν}
    {Q : A → S → Type μ} where
  pub Leads-bind :
      (m : Eff S C) {k : C → Eff S A}
      → Leads P m R
      → ((c : C) → Leads (R c) (k c) Q)
      → Leads P (m >>= k) Q
  Leads-bind m h g = record { at = λ s p. (g (m s).0).at (m s).1 (h.at s p) }

module _ {ℓ κ ι μ υ} {S : Type ℓ} {A : Type κ} {C : Type υ} {P : S → Type ι}
    {Q : A → S → Type μ} where
  -- A call that always answers the same, and keeps the property.
  pub Leads-attempt :
      (m : Eff S (Result C)) (fail : Error → Eff S A) (rest : C → Eff S A) (c : C)
      → ((s : S) → (m s).0 ≡ ok c)
      → ((s : S) → P s → P (m s).1)
      → Leads P (rest c) Q
      → Leads P (attempt m fail rest) Q
  Leads-attempt m fail rest c answer keep h = record {
    at = λ s p. rw (answer s) (h.at (m s).1 (keep s p));
  }
