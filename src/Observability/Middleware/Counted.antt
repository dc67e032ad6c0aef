-- ===== src/Observability/Middleware/Counted.antt =====
-- What the middleware of internal/observability/tracing.go counts.
use mpc_custody.Prelude.{ℕ, ◌+◌, ◌≡◌, ◌≢◌, refl, none, some, List, [], ◌∷◌, ◌++◌, if◌then◌else◌}
use mpc_custody.Go.Str.{Str, str_eq, bytes}
use mpc_custody.Go.Dict.{Dict, lookup}
use mpc_custody.Wallet.Interfaces.{Trace}
use mpc_custody.Observability.Metrics.{Metrics, metric_key, inc}
use mpc_custody.Observability.Middleware.{Instruments, Arrival, trace_of}

abbrev pub count_at : Str → Metrics → ℕ
count_at key m = elim (lookup key m.counters) [ none ↦ 0 | some n ↦ n ]

abbrev pub samples_at : Str → Metrics → List ℕ
samples_at key m = elim (lookup key m.latencies) [ none ↦ [] | some ds ↦ ds ]

-- Metrics that are one slot of the state, which the clock does not touch.
pub record HasMetrics {W : Type 0} (o : Instruments W) : Type 0 where
  pub written : (m : Metrics) (w : W) → o.metrics (o.with_metrics m w) ≡ m
  pub clock_keeps : (w : W) → o.metrics (o.now w).1 ≡ o.metrics w

-- What the handler wrote and left, inside the middleware.
abbrev pub served : {W R : Type 0} → Instruments W → (Trace → W → R × W) → Arrival → W → R × W
served o next r w =
    let (start, w1) = o.now w in let (trace, w2) = trace_of o r.traceparent w1 in next trace w2

-- One count and one sample more, under the labels.
pub record Counted (labels : Dict Str) (old new : Metrics) : Type 0 where
  pub count :
      (key : Str)
      → count_at key new ≡ (
          if str_eq (metric_key (bytes "custody_http_requests_total") labels) key
          then count_at (metric_key (bytes "custody_http_requests_total") labels) old + 1
          else count_at key old)
  pub duration : ℕ
  pub sample :
      (key : Str)
      → samples_at key new ≡ (
          if str_eq (metric_key (bytes "custody_http_request_duration_seconds") labels) key
          then samples_at (metric_key (bytes "custody_http_request_duration_seconds") labels) old
            ++ duration ∷ []
          else samples_at key old)

inc-latencies :
    (name : Str) (labels : Dict Str) (m : Metrics) → (inc name labels m).latencies ≡ m.latencies
unfolding inc
inc-latencies name labels m = refl

-- The label of a path: the path itself where it is one of five, and one label for all others.
pub data IsRoute (path : Str) : Str → Type 0 where
  as_health : path ≡ bytes "/healthz" → IsRoute path (bytes "/healthz")
  as_ready : path ≡ bytes "/readyz" → IsRoute path (bytes "/readyz")
  as_metrics : path ≡ bytes "/metrics" → IsRoute path (bytes "/metrics")
  as_wallets : path ≡ bytes "/v1/wallets" → IsRoute path (bytes "/v1/wallets")
  as_transactions : path ≡ bytes "/v1/transactions" → IsRoute path (bytes "/v1/transactions")
  as_transaction :
      path ≢ bytes "/healthz"
      → path ≢ bytes "/readyz"
      → path ≢ bytes "/metrics"
      → path ≢ bytes "/v1/wallets"
      → path ≢ bytes "/v1/transactions"
      → IsRoute path (bytes "/v1/transactions/{id}")
