-- ===== src/Reconciler/Kept.antt =====
-- Calls of the reconciler that keep a property of one place's content.
use bmc_secret_operator.Base.{◌≡◌, refl, sym, subst, Option, none, some}
use bmc_secret_operator.Base.Effect.{Eff, pure}
use bmc_secret_operator.Base.Effect.Keeps.{Keeps, Keeps-pure}
use bmc_secret_operator.Interface.{SecretData}
use bmc_secret_operator.Interface.Store.{IsQuiet}
use bmc_secret_operator.Reconciler.{BmcSecretReconciler, ReconcileMetrics, with_metrics}
use bmc_secret_operator.Reconciler.Quiet.{IsQuietMetrics, IsQuietAround}

module _ {S L : Type 0} (stored : S → L → Option SecretData) (l : L)
    (P : Option SecretData → Type 0) where
  abbrev pub Kept : {A : Type 0} → Eff S A → Type 0
  Kept m = Keeps (λ s. P (stored s l)) m

  pub quiet_Kept : {A : Type 0} (m : Eff S A) → IsQuiet stored m → Kept m
  quiet_Kept m q = record { at = λ s h. subst P (sym (q s l)) h }

module _ {S B L : Type 0} {r : BmcSecretReconciler S B} {stored : S → L → Option SecretData}
    (around : IsQuietAround r stored) (l : L) (P : Option SecretData → Type 0) where
  pub with_metrics-Kept :
      (act : ReconcileMetrics S → Eff S (Unit {0}))
      → ((m : ReconcileMetrics S) → IsQuietMetrics m stored → Kept stored l P (act m))
      → Kept stored l P (with_metrics r act)
  with_metrics-Kept act keeps = one r.metrics refl
    where
      one :
          (metrics : Option (ReconcileMetrics S))
          → r.metrics ≡ metrics
          → Kept stored l P (elim metrics [ none ↦ pure tt | some m ↦ act m ])
      one none e = Keeps-pure tt
      one (some m) e = keeps m (around.metrics_quiet m e)
