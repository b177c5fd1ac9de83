-- ===== src/Reconciler/Reconcile/Converges/Outer.antt =====
-- A run up to the choice of the mode, and behind it, when everything answers.
use bmc_secret_operator.Base.{◌≡◌, refl, suc, ℕ, String, false, Option, List, [], ◌∷◌}
use bmc_secret_operator.Base.{if◌then◌else◌, error_of, length, ◌=ℕ◌, arith}
use bmc_secret_operator.Base.Effect.{Eff, ◌>>=◌, ◌>>◌, attempt, pure}
use bmc_secret_operator.Base.Effect.Leads.{Leads, Leads-pure, Leads->>, Leads-bind, Leads-attempt}
use bmc_secret_operator.Api.Metal.{Bmc}
use bmc_secret_operator.Interface.{SecretData}
use bmc_secret_operator.Resolver.{extract_credentials, find_bmcs_for_secret}
use bmc_secret_operator.Reconciler.{
  BmcSecretReconciler, Exit, done, failed, requeue_after_normal, requeue_after_error, with_metrics,
}
use bmc_secret_operator.Reconciler.Quiet.{IsQuietAround}
use bmc_secret_operator.Reconciler.Sync.{Progress}
use bmc_secret_operator.Reconciler.Status.{update_sync_status}
use bmc_secret_operator.Reconciler.Reconcile.{
  report, ensure_finalizer, reconcile_single_engine, reconcile_multi_engine, sync_credentials,
  discover_and_sync, reconcile_body, reconcile,
}
use bmc_secret_operator.Reconciler.Reconcile.Paths.{
  deferred, update_sync_status-Kept, report-Kept, metrics-Kept,
}
use bmc_secret_operator.Reconciler.Reconcile.Converges.Setting.{Situation, IsAnswered, mine}

module _ {S B : Type 0} (r : BmcSecretReconciler S B) (c : Situation) where
  -- The choice of the mode.
  abbrev pub choose_mode : List Bmc → Eff S Exit
  choose_mode bmcs =
      attempt r.backend_factory.has_multi_engine_config (λ e. pure (failed requeue_after_error e))
        λ has_multi_engine.
          if has_multi_engine
          then reconcile_multi_engine r c.updated bmcs c.username c.password
          else reconcile_single_engine r c.updated bmcs c.username c.password

-- The run returns, asks for a requeue after 300 s, and leaves `Goal`, of these BMCs.
abbrev pub Arrives : {S : Type 0} → (List Bmc → S → Type 0) → List Bmc → Eff S Exit → Type 0
Arrives Goal bmcs m =
    Leads (λ s. Unit {0}) m (λ exit s. (exit ≡ done requeue_after_normal) × Goal bmcs s)

-- `Goal` is what the run is to leave for these BMCs; it depends on the contents of places only.
module _ {S B L : Type 0} (r : BmcSecretReconciler S B) (stored : S → L → Option SecretData)
    (around : IsQuietAround r stored) (c : Situation) (Goal : List Bmc → S → Type 0)
    (moved : (bmcs : List Bmc) (s s' : S)
      → ((l : L) → stored s' l ≡ stored s l)
      → Goal bmcs s
      → Goal bmcs s') where
  -- The end of each mode, behind its loop: the status, the event and the metrics.
  pub finish-Arrives :
      (loop : Eff S Progress) (bmcs : List Bmc) (time : ℕ) (total : Progress → ℕ)
      (partial complete : Progress → String)
      → ((s : S) → Goal bmcs (loop s).1)
      → Arrives Goal bmcs (
          loop >>= λ p.
          update_sync_status r c.updated.name p.backend_paths (total p) p.sync_success p.sync_errors
          >>= λ _.
              report r c.updated p time (partial p) (complete p)
              >> pure (done requeue_after_normal))
  finish-Arrives loop bmcs time total partial complete ends =
      Leads-bind {R = λ p s. Goal bmcs s} loop (record { at = λ s h. ends s })
        λ p.
          let update =
            update_sync_status r c.updated.name p.backend_paths (total p) p.sync_success
              p.sync_errors in
          let tell = report r c.updated p time (partial p) (complete p) in
          Leads-bind {R = λ p s. Goal bmcs s} update
            (record {
              at = λ s. moved bmcs s (update s).1 λ l.
                  (update_sync_status-Kept r around l (λ o. o ≡ stored s l) c.updated.name
                      p.backend_paths (total p) p.sync_success p.sync_errors).at
                    s refl;
            })
            λ _.
              Leads->> tell
                (λ s. moved bmcs s (tell s).1 λ l.
                  (report-Kept r around l (λ o. o ≡ stored s l) c.updated p time (partial p)
                      (complete p)).at
                    s refl)
                (Leads-pure (done requeue_after_normal) (λ s h. (refl, h)))

  module _ (answered : IsAnswered r c) (trivial : (s : S) → Goal [] s)
      (syncs : (bmcs : List Bmc) → Arrives Goal bmcs (choose_mode r c bmcs)) where
    sync_credentials-Arrives :
        (bmcs : List Bmc) → Arrives Goal bmcs (sync_credentials r c.updated bmcs)
    unfolding sync_credentials
    sync_credentials-Arrives bmcs =
        Leads->>
          (with_metrics r (λ m.
            m.record_credential_extraction c.updated.name
              (error_of (extract_credentials c.updated))))
          (λ s h. tt)
          (Leads-attempt (pure (extract_credentials c.updated)) _ _ (c.username, c.password)
            (λ s. answered.is_complete) (λ s h. tt) (syncs bmcs))

    suc_is_not_zero : (n : ℕ) → (suc n =ℕ 0) ≡ false
    suc_is_not_zero n = ground arith

    mine-Arrives :
        (bmcs : List Bmc)
        → Arrives Goal bmcs (
            if length bmcs =ℕ 0
            then (r.event c.updated.name "Normal" "NoBMCReference" "No BMCs reference this secret"
                >> pure (done requeue_after_normal))
            else sync_credentials r c.updated bmcs)
    mine-Arrives [] =
        Leads->> (r.event c.updated.name "Normal" "NoBMCReference" "No BMCs reference this secret")
          (λ s h. tt) (Leads-pure (done requeue_after_normal) (λ s h. (refl, trivial s)))
    mine-Arrives (bmc ∷ rest) =
        rw (suc_is_not_zero (length rest)) (sync_credentials-Arrives (bmc ∷ rest))

    discover_and_sync-Arrives : Arrives Goal (mine c) (discover_and_sync r c.updated)
    unfolding discover_and_sync find_bmcs_for_secret
    discover_and_sync-Arrives =
        Leads-attempt (find_bmcs_for_secret r.client.list_bmcs c.updated.name) _ _ (mine c)
          (λ s. rw (answered.is_listed s, find_bmcs_for_secret) refl) (λ s h. tt)
          (Leads->> (with_metrics r (λ m. m.record_bmc_count c.updated.name (length (mine c))))
            (λ s h. tt) (mine-Arrives (mine c)))

    reconcile_body-Arrives : Arrives Goal (mine c) (reconcile_body r c.name)
    unfolding reconcile_body
    reconcile_body-Arrives =
        Leads-attempt (r.client.get_bmc_secret c.name) _ _ c.read answered.is_read (λ s h. tt)
          (Leads-attempt r.backend_factory.get_sync_label _ _ c.sync_label answered.label_is_read
            (λ s h. tt)
            (rw (answered.is_labelled) (
              simp (answered.is_live, reconcile_body)
                (Leads-attempt (ensure_finalizer r c.read) _ _ c.updated answered.is_finalized
                  (λ s h. tt) discover_and_sync-Arrives))))

    pub reconcile-Arrives : Arrives Goal (mine c) (reconcile r c.name)
    unfolding reconcile
    reconcile-Arrives =
        Leads-bind {R = λ _ s. Unit {0}} r.now (record { at = λ s h. tt })
          λ start.
            Leads-bind {R = λ exit s. (exit ≡ done requeue_after_normal) × Goal (mine c) s}
              (reconcile_body r c.name) reconcile_body-Arrives
              λ exit.
                Leads->> (deferred r start exit)
                  (λ s (e, h). (
                    e,
                    moved (mine c) s (deferred r start exit s).1
                        (λ l. (metrics-Kept r around l (λ o. o ≡ stored s l) start exit).at s refl)
                        h,
                  ))
                  (Leads-pure exit (λ s h. h))
