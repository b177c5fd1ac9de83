-- ===== src/Reconciler/Reconcile/Gates.antt =====
-- The sync label and the finalizer in a run, and the event filter.
use bmc_secret_operator.Base.{
  ◌≡◌, ◌↔◌, inl, inr, Option-cases, Bool-cases, refl, String, true, false, none, some, Error,
  Result, ok, err, ◌==◌, eq_iff, arith,
}
use bmc_secret_operator.Base.Dict.{find}
use bmc_secret_operator.Base.Effect.{Eff}
use bmc_secret_operator.Api.Metal.{BmcSecret}
use bmc_secret_operator.Reconciler.{BmcSecretReconciler, failed}
use bmc_secret_operator.Reconciler.Deletion.{contains_finalizer, add_finalizer}
use bmc_secret_operator.Reconciler.Reconcile.{lacks_sync_label, ensure_finalizer, reconcile_body}
use bmc_secret_operator.Reconciler.Setup.{event_passes}

module _ {S B : Type 0} (r : BmcSecretReconciler S B) (name : String) (secret : BmcSecret)
    (s : S) where
  abbrev fetched : S
  fetched = (r.client.get_bmc_secret name s).1

  abbrev finalized : Eff S (Result BmcSecret)
  finalized = r.client.update_bmc_secret (add_finalizer secret)

  -- A secret is synced only after the cluster has accepted the finalizer: if the update that adds it
  -- fails, the run ends with that error in the state that the update left.
  pub reconcile_body-unfinalized :
      (sync_label : String) (e : Error)
      → (r.client.get_bmc_secret name s).0 ≡ ok secret
      → (r.backend_factory.get_sync_label fetched).0 ≡ ok sync_label
      → lacks_sync_label sync_label secret ≡ false
      → secret.deletion_timestamp ≡ none
      → contains_finalizer secret ≡ false
      → (finalized (r.backend_factory.get_sync_label fetched).1).0 ≡ err e
      → reconcile_body r name s
        ≡ (failed 0 e, (finalized (r.backend_factory.get_sync_label fetched).1).1)
  unfolding reconcile_body ensure_finalizer
  reconcile_body-unfinalized sync_label e g l h t c f = ground arith

unlabelled_lem :
    (sync_label : String) (secret : BmcSecret)
    → find sync_label secret.labels ≡ none
    → event_passes sync_label secret.labels ≡ false
    → lacks_sync_label sync_label secret ≡ true
unfolding event_passes lacks_sync_label
unlabelled_lem sync_label secret e dropped = elim (Bool-cases (sync_label == "")) [
  | inl empty ↦ cc (rw (empty, event_passes) at dropped)
  | inr named ↦ rw (named, e, lacks_sync_label) refl
]

-- The event filter drops no object that the reconciler would handle, and the two differ on exactly
-- the objects that have the label with an empty value: the filter lets them pass and the reconciler
-- skips them.
pub event_passes-lacks_sync_label :
    (sync_label : String) (secret : BmcSecret)
    → (event_passes sync_label secret.labels ≡ false → lacks_sync_label sync_label secret ≡ true)
      × (((event_passes sync_label secret.labels ≡ true)
            × (lacks_sync_label sync_label secret ≡ true))
          ↔ (((sync_label == "") ≡ false) × (find sync_label secret.labels ≡ some "")))
unfolding event_passes lacks_sync_label
event_passes-lacks_sync_label sync_label secret =
    elim (Option-cases (find sync_label secret.labels)) [
      | inl e ↦ (λ dropped. unlabelled_lem sync_label secret e dropped, ground arith)
      | inr (v, e) ↦ (ground (arith, eq_iff v ""), ground (arith, eq_iff v ""))
    ]
