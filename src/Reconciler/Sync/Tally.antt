-- ===== src/Reconciler/Sync/Tally.antt =====
-- The bookkeeping of the sync loops: status entries and counters.
use bmc_secret_operator.Base.{ℕ, suc, ◌+◌, ◌*◌, ◌≡◌, subst, sym, String, Bool, ◌==◌, List, [], ◌∷◌}
use bmc_secret_operator.Base.{arith, length, length-append, count, count-append, Error}
use bmc_secret_operator.Base.Effect.{Eff}
use bmc_secret_operator.Api.Metal.{Bmc}
use bmc_secret_operator.Api.SyncStatus.{BackendPath}
use bmc_secret_operator.PathBuilder.{PathBuilder}
use bmc_secret_operator.Interface.{EngineBackend}
use bmc_secret_operator.Reconciler.{BmcSecretReconciler}
use native.Mathlib.Nat.{add-zero}
use bmc_secret_operator.Reconciler.Sync.Round.{
  Round, not_built, not_checked, up_to_date, not_written, is_written, sync_bmc-Round,
}
use bmc_secret_operator.Reconciler.Sync.{
  Progress, no_progress, Job, path_failed, path_synced, sync_bmc, sync_bmcs, sync_single,
  sync_engine, sync_engines,
}

abbrev pub is_synced : BackendPath → Bool
is_synced bp = bp.sync_status == "Success"

abbrev pub is_failed : BackendPath → Bool
is_failed bp = bp.sync_status == "Failed"

-- `n` rounds were made, each with one entry, and the counters count the entries.
pub record IsTally (n : ℕ) (p : Progress) : Type 0 where
  pub entries : length p.backend_paths ≡ n
  pub synced : count is_synced p.backend_paths ≡ p.sync_success
  pub failed : count is_failed p.backend_paths ≡ p.sync_errors
  pub total : p.sync_success + p.sync_errors ≡ n

no_progress-IsTally : IsTally 0 no_progress
no_progress-IsTally = omega arith

IsTally-eq : {m n : ℕ} {p : Progress} → m ≡ n → IsTally m p → IsTally n p
IsTally-eq {p} e = subst (λ k. IsTally k p) e

pub IsTally-length : {n : ℕ} {p : Progress} → IsTally n p → IsTally (length p.backend_paths) p
IsTally-length h = IsTally-eq (sym h.entries) h

module _ (job : Job) (bmc : Bmc) (path message : String) {n : ℕ} (p : Progress)
    (h : IsTally n p) where
  path_failed-IsTally : IsTally (suc n) (path_failed job bmc path message p)
  unfolding path_failed
  path_failed-IsTally = record {
    entries = rw length-append (omega arith);
    synced = rw count-append (omega arith);
    failed = rw count-append (omega arith);
    total = omega arith;
  }

  path_synced-IsTally : IsTally (suc n) (path_synced job bmc path p)
  unfolding path_synced
  path_synced-IsTally = record {
    entries = rw length-append (omega arith);
    synced = rw count-append (omega arith);
    failed = rw count-append (omega arith);
    total = omega arith;
  }

module _ {S B : Type 0} (r : BmcSecretReconciler S B) (message : Error → String)
    (report : String → Error → Eff S (Unit {0})) (backend : B) (path_builder : PathBuilder)
    (job : Job) where
  Round-IsTally :
      {n : ℕ} {bmc : Bmc} {p p' : Progress} {s s' : S}
      → Round r message report backend path_builder job bmc p s p' s'
      → IsTally n p
      → IsTally (suc n) p'
  Round-IsTally {bmc} {p} (not_built e _) h = path_failed-IsTally job bmc "" (message e) p h
  Round-IsTally {bmc} {p} (not_checked path e _ _) h =
      path_failed-IsTally job bmc path (message e) p h
  Round-IsTally {bmc} {p} (up_to_date path _ _) h = path_synced-IsTally job bmc path "" p h
  Round-IsTally {bmc} {p} (not_written path e _ _ _) h =
      path_failed-IsTally job bmc path (message e) p h
  Round-IsTally {bmc} {p} (is_written path _ _ _) h = path_synced-IsTally job bmc path "" p h

  sync_bmcs-IsTally :
      (bmcs : List Bmc) {n : ℕ} (p : Progress) (s : S)
      → IsTally n p
      → IsTally (n + length bmcs) (sync_bmcs r message report backend path_builder job bmcs p s).0
  unfolding sync_bmcs
  sync_bmcs-IsTally [] p s h = rw add-zero h
  sync_bmcs-IsTally (bmc ∷ rest) {n} p s h =
      let (p', s') = sync_bmc r message report backend path_builder job bmc p s in
      IsTally-eq (omega arith) (
        sync_bmcs-IsTally rest p' s'
          (Round-IsTally (sync_bmc-Round r message report backend path_builder job bmc p s) h))

module _ {S B : Type 0} (r : BmcSecretReconciler S B) (job : Job) (bmcs : List Bmc) where
  -- The single-engine loop leaves one status entry for each BMC, its two counters are the numbers
  -- of entries with the status Success and Failed, and they add up to the number of BMCs.
  pub sync_single-IsTally :
      (backend : B) (path_builder : PathBuilder) (s : S)
      → IsTally (length bmcs) (sync_single r backend path_builder job bmcs s).0
  unfolding sync_single
  sync_single-IsTally backend path_builder s =
      IsTally-eq (omega arith)
        (sync_bmcs-IsTally r _ _ backend path_builder job bmcs no_progress s no_progress-IsTally)

  sync_engines-IsTally_from :
      (engines : List (EngineBackend B)) {n : ℕ} (p : Progress) (s : S)
      → IsTally n p
      → IsTally (n + length engines * length bmcs) (sync_engines r job bmcs engines p s).0
  unfolding sync_engines sync_engine
  sync_engines-IsTally_from [] p s h = IsTally-eq (grind arith) h
  sync_engines-IsTally_from (engine ∷ rest) p s h =
      let (p', s') = sync_engine r job bmcs engine p s in
      IsTally-eq (grind arith) (
        sync_engines-IsTally_from rest p' s'
          (sync_bmcs-IsTally r _ _ engine.backend engine.path_builder job bmcs p s h))

  -- The multi-engine loop leaves one status entry for each pair of an engine and a BMC, its two
  -- counters are the numbers of entries with the status Success and Failed, and they add up to the
  -- number of pairs.
  pub sync_engines-IsTally :
      (engines : List (EngineBackend B)) (s : S)
      → IsTally (length engines * length bmcs) (sync_engines r job bmcs engines no_progress s).0
  sync_engines-IsTally engines s =
      IsTally-eq (omega arith) (sync_engines-IsTally_from engines no_progress s no_progress-IsTally)
