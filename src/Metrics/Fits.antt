-- ===== src/Metrics/Fits.antt =====
-- The calls of internal/metrics/metrics.go against the vectors that NewCollector makes:
-- `WithLabelValues` panics if the number of values is not that of the vector's labels.
use bmc_secret_operator.Base.{ℕ, String, Bool, true, false, ◌≡◌, refl, ◌=ℕ◌, ◌&&◌}
use bmc_secret_operator.Base.{List, [], ◌∷◌, All, All-append, Option, none, some, ltb, length}
use bmc_secret_operator.Base.Effect.Keeps.{Keeps, Keeps-pure, Keeps->>, Keeps-if}
use bmc_secret_operator.Metrics
use bmc_secret_operator.Metrics.{Sample, observe, inc, set, Registry, emit}
use bmc_secret_operator.Metrics.Collector.{Kind, histogram, counter, gauge, opts, Call, perform}
use bmc_secret_operator.Metrics.Collector.{
  perform_all, reconcile_took, reconcile_ended, bmcs_counted,
}
use bmc_secret_operator.Metrics.Collector.{synced, operated, operated_on_engine, authenticated}
use bmc_secret_operator.Metrics.Collector.{discovered, extracted}

abbrev pub is_histogram : Kind → Bool
is_histogram (histogram buckets) = true
is_histogram counter = false
is_histogram gauge = false

-- The vector has the method that is called, and as many labels as there are values.
unfoldable pub fits : Sample → Bool
unfolding opts
fits (observe v labels d) = is_histogram (opts v).kind && length labels =ℕ length (opts v).labels
fits (inc v labels) = elim (opts v).kind [
  | counter ↦ length labels =ℕ length (opts v).labels
  | _ ↦ false
]
fits (set v labels n) = elim (opts v).kind [
  | gauge ↦ length labels =ℕ length (opts v).labels
  | _ ↦ false
]

abbrev pub Fits : Registry → Type 0
Fits = All (λ s. fits s ≡ true)

emit-Fits : (s : Sample) → fits s ≡ true → Keeps Fits (emit s)
emit-Fits s h = record { at = λ samples all. All-append _ samples (s ∷ []) all (h, tt) }

record_sync_status-Fits :
    (secret : String) (done failed t : ℕ)
    → Keeps Fits (Metrics.record_sync_status secret done failed t)
unfolding Metrics.record_sync_status fits
record_sync_status-Fits secret done failed t = Keeps->> (emit-Fits _ refl) (
    Keeps->> (emit-Fits _ refl)
      (Keeps-if (ltb 0 done && (failed =ℕ 0)) (emit-Fits _ refl) (Keeps-pure tt)))

record_backend_operation-Fits :
    (operation kind : String) (d : ℕ) (e : Option _)
    → Keeps Fits (Metrics.record_backend_operation operation kind d e)
unfolding Metrics.record_backend_operation fits
record_backend_operation-Fits operation kind d none =
    Keeps->> (emit-Fits _ refl) (Keeps->> (Keeps-pure tt) (emit-Fits _ refl))
record_backend_operation-Fits operation kind d (some e) =
    Keeps->> (emit-Fits _ refl) (Keeps->> (emit-Fits _ refl) (emit-Fits _ refl))

perform-Fits : (c : Call) → Keeps Fits (perform c)
unfolding perform Metrics.record_reconcile_duration Metrics.record_reconcile_result
    Metrics.record_bmc_count Metrics.record_auth Metrics.record_bmc_discovery
    Metrics.record_credential_extraction Metrics.record_backend_operation_with_engine fits
perform-Fits (reconcile_took operation d) = emit-Fits _ refl
perform-Fits (reconcile_ended result) = emit-Fits _ refl
perform-Fits (bmcs_counted secret n) = emit-Fits _ refl
perform-Fits (synced secret done failed t) = record_sync_status-Fits secret done failed t
perform-Fits (operated operation kind d e) = record_backend_operation-Fits operation kind d e
perform-Fits (operated_on_engine operation kind engine d e) =
    record_backend_operation-Fits operation _ d e
perform-Fits (authenticated method kind d e) = Keeps->> (emit-Fits _ refl) (emit-Fits _ refl)
perform-Fits (discovered secret d) = emit-Fits _ refl
perform-Fits (extracted secret e) = emit-Fits _ refl

-- Whatever is called on the collector, in whatever order, each update is of a vector that has the
-- method and is given as many label values as the vector was created with.
pub perform_all-Fits :
    (calls : List Call) (samples : Registry) → Fits samples → Fits (perform_all calls samples).1
unfolding perform_all
perform_all-Fits [] samples h = h
perform_all-Fits (c ∷ cs) samples h = perform_all-Fits cs _ ((perform-Fits c).at samples h)
