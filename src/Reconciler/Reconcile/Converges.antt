-- ===== src/Reconciler/Reconcile/Converges.antt =====
-- A run of the reconciler when everything answers, in each of the two modes.
pub mod Setting
pub mod Loop
pub mod Outer
use bmc_secret_operator.Base.{
  ◌≡◌, refl, ap, ◌∙◌, ℕ, String, false, true, Option, List, [], ◌∷◌, ◌<>◌,
}
use bmc_secret_operator.Base.{if◌then◌else◌, All, All-map, length, ◌=ℕ◌}
use bmc_secret_operator.Base.Effect.Leads.{Leads-bind, Leads-attempt}
use bmc_secret_operator.Base.Decimal.{decimal}
use bmc_secret_operator.Api.Metal.{Bmc}
use bmc_secret_operator.PathBuilder.{PathBuilder}
use bmc_secret_operator.Interface.{EngineBackend, SecretData}
use bmc_secret_operator.Interface.Store.{IsStore}
use bmc_secret_operator.Reconciler.{BmcSecretReconciler, done, requeue_after_normal}
use bmc_secret_operator.Reconciler.Quiet.{IsQuietAround}
use bmc_secret_operator.Reconciler.Sync.{no_progress, password_of, sync_single, sync_engines}
use bmc_secret_operator.Reconciler.Sync.InPlace.{sync_engines-IsInPlace}
use bmc_secret_operator.Reconciler.Sync.Password.{sync_bmcs-IsInPlace}
use bmc_secret_operator.Reconciler.Sync.Round.{variables}
use bmc_secret_operator.Reconciler.Reconcile.{
  reconcile_single_engine, reconcile_multi_engine, reconcile,
}
use Setting.{
  Situation, IsAnswered, IsSingle, IsMulti, job_at, mine, HasPassword, AllHave, EnginesHave,
}
use Loop.{sync_bmcs-errors_none, sync_engines-errors_none}
use Outer.{Arrives, choose_mode, finish-Arrives, reconcile-Arrives}

module _ {S B L : Type 0} (r : BmcSecretReconciler S B) {place : B → String → L}
    {stored : S → L → Option SecretData} (store : IsStore r.backends place stored)
    (around : IsQuietAround r stored) (c : Situation) (answered : IsAnswered r c) where
  AllHave-moved :
      (backend : B) (path_builder : PathBuilder) (bmcs : List Bmc) (s s' : S)
      → ((l : L) → stored s' l ≡ stored s l)
      → AllHave place stored c backend path_builder bmcs s
      → AllHave place stored c backend path_builder bmcs s'
  AllHave-moved backend path_builder bmcs s s' same h =
      All-map (HasPassword place stored c backend path_builder s)
        (HasPassword place stored c backend path_builder s')
        (λ bmc (path, b, there). (path, b, ap password_of (same (place backend path)) ∙ there)) bmcs
        h

  module _ (backend : B) (path_builder : PathBuilder)
      (single : IsSingle r place stored backend path_builder) where
    sync_single-AllHave :
        (bmcs : List Bmc) (time : ℕ) (s : S)
        → AllHave place stored c backend path_builder bmcs
            (sync_single r backend path_builder (job_at c time) bmcs s).1
    unfolding sync_single
    sync_single-AllHave bmcs time s =
        sync_bmcs-IsInPlace r store _ _ (λ path e. around.event_quiet _ _ _ _) backend path_builder
          (job_at c time) bmcs no_progress s
          (sync_bmcs-errors_none r store backend path_builder single.is_serving _ _ (job_at c time)
            bmcs no_progress s)

    choose_mode-single :
        (bmcs : List Bmc)
        → Arrives (AllHave place stored c backend path_builder) bmcs (choose_mode r c bmcs)
    unfolding reconcile_single_engine
    choose_mode-single bmcs =
        Leads-attempt r.backend_factory.has_multi_engine_config _ _ false single.is_single
          (λ s h. tt)
          (Leads-attempt r.backend_factory.get_backend _ _ backend single.backend_is_got (λ s h. tt)
            (Leads-attempt r.backend_factory.get_path_builder _ _ path_builder single.builder_is_got
              (λ s h. tt)
              (Leads-attempt r.backend_factory.get_region_label_key _ _ c.region_label_key
                answered.key_is_got (λ s h. tt)
                (Leads-bind {R = λ _ s. Unit {0}} r.now (record { at = λ s h. tt })
                  λ time.
                    finish-Arrives r stored around c (AllHave place stored c backend path_builder)
                      (AllHave-moved backend path_builder)
                      (sync_single r backend path_builder (job_at c time) bmcs) bmcs time
                      (λ p. length bmcs)
                      (λ p.
                        "Synced "
                        <> decimal p.sync_success
                        <> "/"
                        <> decimal (length bmcs)
                        <> " secrets")
                      (λ p. "Successfully synced to " <> decimal p.sync_success <> " backend paths")
                      (sync_single-AllHave bmcs time)))))

    -- Given stores, and surroundings that leave them alone: when the cluster, the factory and the
    -- backend answer at every time, and every path can be built, a run for a live, labelled and
    -- complete secret in single-engine mode returns no error, asks for a requeue after 300 s, and
    -- leaves the secret's password at the path of every BMC that refers to it, whatever the backend
    -- held before.
    pub reconcile-AllHave :
        (s : S)
        → ((reconcile r c.name s).0 ≡ done requeue_after_normal)
          × AllHave place stored c backend path_builder (mine c) (reconcile r c.name s).1
    reconcile-AllHave s =
        (reconcile-Arrives r stored around c (AllHave place stored c backend path_builder)
            (AllHave-moved backend path_builder) answered (λ s. tt) choose_mode-single).at
          s tt

  EnginesHave-moved :
      (engines : List (EngineBackend B)) (bmcs : List Bmc) (s s' : S)
      → ((l : L) → stored s' l ≡ stored s l)
      → EnginesHave place stored c engines bmcs s
      → EnginesHave place stored c engines bmcs s'
  EnginesHave-moved engines bmcs s s' same =
      All-map _ _ (λ engine. AllHave-moved engine.backend engine.path_builder bmcs s s' same)
        engines

  nothing-EnginesHave :
      (engines : List (EngineBackend B)) (s : S) → EnginesHave place stored c engines [] s
  nothing-EnginesHave [] s = tt
  nothing-EnginesHave (engine ∷ rest) s = (tt, nothing-EnginesHave rest s)

  module _ (engines : List (EngineBackend B)) (multi : IsMulti r place stored c engines) where
    sync_engines-EnginesHave :
        (bmcs : List Bmc) (time : ℕ) (s : S)
        → EnginesHave place stored c engines bmcs
            (sync_engines r (job_at c time) bmcs engines no_progress s).1
    sync_engines-EnginesHave bmcs time s =
        sync_engines-IsInPlace r store around.event_quiet (job_at c time) bmcs engines s (
          sync_engines-errors_none r store (job_at c time) bmcs engines no_progress s
            multi.are_serving)

    choose_mode-multi :
        (bmcs : List Bmc) → Arrives (EnginesHave place stored c engines) bmcs (choose_mode r c bmcs)
    unfolding reconcile_multi_engine
    choose_mode-multi bmcs =
        Leads-attempt r.backend_factory.has_multi_engine_config _ _ true multi.is_multi (λ s h. tt)
          (Leads-attempt r.backend_factory.get_region_label_key _ _ c.region_label_key
            answered.key_is_got (λ s h. tt)
            (Leads-attempt (r.backend_factory.get_engine_backends c.updated.labels) _ _ engines
              multi.engines_are_got (λ s h. tt)
              (rw (multi.engines_are_some) (
                Leads-bind {R = λ _ s. Unit {0}} r.now (record { at = λ s h. tt })
                  λ time.
                    finish-Arrives r stored around c (EnginesHave place stored c engines)
                      (EnginesHave-moved engines)
                      (sync_engines r (job_at c time) bmcs engines no_progress) bmcs time
                      (λ p. length p.backend_paths)
                      (λ p.
                        "Synced "
                        <> decimal p.sync_success
                        <> "/"
                        <> decimal (length p.backend_paths)
                        <> " secrets across "
                        <> decimal (length engines)
                        <> " engines")
                      (λ p.
                        "Successfully synced to "
                        <> decimal p.sync_success
                        <> " backend paths across "
                        <> decimal (length engines)
                        <> " engines")
                      (sync_engines-EnginesHave bmcs time)))))

    -- Given stores, and surroundings that leave them alone: when the cluster, the factory and the
    -- engines that match the secret's labels answer at every time, every path can be built, and
    -- there is such an engine, a run for a live, labelled and complete secret in multi-engine mode
    -- returns no error, asks for a requeue after 300 s, and leaves the secret's password in the
    -- backend of every such engine, at the path of every BMC that refers to the secret.
    pub reconcile-EnginesHave :
        (s : S)
        → ((reconcile r c.name s).0 ≡ done requeue_after_normal)
          × EnginesHave place stored c engines (mine c) (reconcile r c.name s).1
    reconcile-EnginesHave s =
        (reconcile-Arrives r stored around c (EnginesHave place stored c engines)
            (EnginesHave-moved engines) answered (nothing-EnginesHave engines) choose_mode-multi).at
          s tt
