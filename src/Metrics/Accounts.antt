-- ===== src/Metrics/Accounts.antt =====
-- How the vectors of internal/metrics/metrics.go about backend operations agree with one another.
use bmc_secret_operator.Base.{ℕ, ◌+◌, String, Bool, false, ◌≡◌, refl, ◌&&◌, ◌==◌, arith}
use bmc_secret_operator.Base.{List, [], ◌∷◌, ◌++◌, Option, none, some, Error, count, count-append}
use bmc_secret_operator.Base.{Bool-cases, inl, inr, ltb, ◌=ℕ◌}
use mathlib.Core.List.{append_assoc}
use bmc_secret_operator.Base.Effect.Keeps.{Keeps, Keeps-pure, Keeps->>, Keeps-if}
use bmc_secret_operator.Metrics
use bmc_secret_operator.Metrics.{Sample, observe, inc, set, Registry, emit}
use bmc_secret_operator.Metrics.{backend_op_duration, backend_op_total, backend_errors_total}
use bmc_secret_operator.Metrics.Collector.{Call, perform}
use bmc_secret_operator.Metrics.Collector.{
  perform_all, reconcile_took, reconcile_ended, bmcs_counted,
}
use bmc_secret_operator.Metrics.Collector.{synced, operated, operated_on_engine, authenticated}
use bmc_secret_operator.Metrics.Collector.{discovered, extracted}

-- Observations of the duration of one operation on one type of backend.
pub is_timed : String → String → Sample → Bool
is_timed operation kind (observe backend_op_duration (o ∷ k ∷ []) d) = o == operation && k == kind
is_timed operation kind s = false

-- Increments of its total with one result.
pub is_counted : String → String → String → Sample → Bool
is_counted operation kind result (inc backend_op_total (o ∷ k ∷ r ∷ [])) =
    o == operation && k == kind && r == result
is_counted operation kind result s = false

-- Increments of its errors, of any type.
pub is_classified : String → String → Sample → Bool
is_classified operation kind (inc backend_errors_total (o ∷ k ∷ t ∷ [])) =
    o == operation && k == kind
is_classified operation kind s = false

module _ (operation kind : String) where
  pub record Agrees (samples : Registry) : Type 0 where
    pub each_is_timed :
        count (is_timed operation kind) samples
        ≡ count (is_counted operation kind "success") samples
          + count (is_counted operation kind "error") samples
    pub each_error_is_classified :
        count (is_classified operation kind) samples
        ≡ count (is_counted operation kind "error") samples

  Agrees-append : (xs ys : Registry) → Agrees xs → Agrees ys → Agrees (xs ++ ys)
  Agrees-append xs ys h k = record {
    each_is_timed = omega (
      arith,
      h.each_is_timed,
      k.each_is_timed,
      count-append (is_timed operation kind) xs ys,
      count-append (is_counted operation kind "success") xs ys,
      count-append (is_counted operation kind "error") xs ys,
    );
    each_error_is_classified = omega (
      arith,
      h.each_error_is_classified,
      k.each_error_is_classified,
      count-append (is_classified operation kind) xs ys,
      count-append (is_counted operation kind "error") xs ys,
    );
  }

  -- An update that none of the tests is about.
  emit-Agrees :
      (s : Sample)
      → is_timed operation kind s ≡ false
      → ((r : String) → is_counted operation kind r s ≡ false)
      → is_classified operation kind s ≡ false
      → Keeps Agrees (emit s)
  emit-Agrees s t c k = record {
    at = λ samples all. Agrees-append samples (s ∷ []) all (record {
      each_is_timed = rw (t, c "success", c "error") refl;
      each_error_is_classified = rw (k, c "error") refl;
    });
  }

  -- What one operation adds.
  operation-Agrees :
      (o k : String) (d : ℕ) (e : Option Error)
      → Agrees (Metrics.record_backend_operation o k d e []).1
  unfolding Metrics.record_backend_operation Metrics.record_backend_error is_timed is_counted
      is_classified
  operation-Agrees o k d none = elim (Bool-cases (o == operation && k == kind)) [
    | inl e ↦ record { each_is_timed = rw e refl; each_error_is_classified = rw e refl }
    | inr e ↦ record { each_is_timed = rw e refl; each_error_is_classified = rw e refl }
  ]
  operation-Agrees o k d (some err) = elim (Bool-cases (o == operation && k == kind)) [
    | inl e ↦ record { each_is_timed = rw e refl; each_error_is_classified = rw e refl }
    | inr e ↦ record { each_is_timed = rw e refl; each_error_is_classified = rw e refl }
  ]

  operation-append :
      (o k : String) (d : ℕ) (e : Option Error) (xs : Registry)
      → (Metrics.record_backend_operation o k d e xs).1
        ≡ xs ++ (Metrics.record_backend_operation o k d e []).1
  unfolding Metrics.record_backend_operation Metrics.record_backend_error
  operation-append o k d none xs = simp append_assoc
  operation-append o k d (some e) xs = simp append_assoc

  record_backend_operation-Agrees :
      (o k : String) (d : ℕ) (e : Option Error)
      → Keeps Agrees (Metrics.record_backend_operation o k d e)
  record_backend_operation-Agrees o k d e = record {
    at = λ samples h.
        rw (operation-append o k d e samples)
          (Agrees-append samples _ h (operation-Agrees o k d e));
  }

  record_sync_status-Agrees :
      (secret : String) (done failed t : ℕ)
      → Keeps Agrees (Metrics.record_sync_status secret done failed t)
  unfolding Metrics.record_sync_status is_timed is_counted is_classified
  record_sync_status-Agrees secret done failed t = Keeps->> (emit-Agrees _ refl (λ r. refl) refl) (
      Keeps->> (emit-Agrees _ refl (λ r. refl) refl) (
        Keeps-if (ltb 0 done && (failed =ℕ 0)) (emit-Agrees _ refl (λ r. refl) refl)
          (Keeps-pure tt)))

  perform-Agrees : (c : Call) → Keeps Agrees (perform c)
  unfolding perform Metrics.record_reconcile_duration Metrics.record_reconcile_result
      Metrics.record_bmc_count Metrics.record_auth Metrics.record_bmc_discovery
      Metrics.record_credential_extraction Metrics.record_backend_operation_with_engine is_timed
      is_counted is_classified
  perform-Agrees (operated o k d e) = record_backend_operation-Agrees o k d e
  perform-Agrees (operated_on_engine o k engine d e) = record_backend_operation-Agrees o _ d e
  perform-Agrees (synced secret done failed t) = record_sync_status-Agrees secret done failed t
  perform-Agrees (authenticated method k d e) =
      Keeps->> (emit-Agrees _ refl (λ r. refl) refl) (emit-Agrees _ refl (λ r. refl) refl)
  perform-Agrees (reconcile_took o d) = emit-Agrees _ refl (λ r. refl) refl
  perform-Agrees (reconcile_ended r) = emit-Agrees _ refl (λ r. refl) refl
  perform-Agrees (bmcs_counted secret n) = emit-Agrees _ refl (λ r. refl) refl
  perform-Agrees (discovered secret d) = emit-Agrees _ refl (λ r. refl) refl
  perform-Agrees (extracted secret e) = emit-Agrees _ refl (λ r. refl) refl

  -- Whatever is called on the collector, in whatever order: of each operation on each type of
  -- backend there are as many durations as counted results, and as many classified errors as
  -- results that are errors.
  pub perform_all-Agrees :
      (calls : List Call) (samples : Registry)
      → Agrees samples
      → Agrees (perform_all calls samples).1
  unfolding perform_all
  perform_all-Agrees [] samples h = h
  perform_all-Agrees (c ∷ cs) samples h = perform_all-Agrees cs _ ((perform-Agrees c).at samples h)
