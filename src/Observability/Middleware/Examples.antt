-- ===== src/Observability/Middleware/Examples.antt =====
-- Requests through the middleware.
use mpc_custody.Prelude.{ℕ, ◌≡◌, refl}
use mpc_custody.Go.Str.{Str, bytes}
use mpc_custody.Go.Exec.{ok}
use mpc_custody.Wallet.Interfaces.{Trace}
use mpc_custody.Observability.Metrics.{Metrics, new_metrics}
use mpc_custody.Observability.Tracing.{traceparent}
use mpc_custody.Observability.Middleware.{Instruments, Arrival, middleware}
use mpc_custody.Observability.Middleware.Counted.{HasMetrics, Counted}
use mpc_custody.Observability.Middleware.Traced.{middleware-traced}

abbrev trace : Trace
trace = record {
  trace_id = bytes "0af7651916cd43dd8448eb211c80319c";
  span_id = bytes "b7ad6b7169203331";
}

-- A state of metrics alone, with a clock that stands and constant bytes for random ones.
abbrev instruments : Instruments Metrics
instruments = record {
  metrics = λ m. m;
  with_metrics = λ m old. m;
  now = λ m. (3, m);
  rand_read = λ n m. (ok (bytes "rrrrrrrrrrrrrrrr"), m);
  status_text = λ n. bytes "OK";
}

abbrev instruments-HasMetrics : HasMetrics instruments
instruments-HasMetrics = record { written = λ m w. refl; clock_keeps = λ w. refl }

abbrev arrival : Str → Arrival
arrival header = record { method = bytes "GET"; path = bytes "/healthz"; traceparent = header }

-- A handler that writes the id of its trace.
abbrev echo : Trace → Metrics → Str × Metrics
echo t m = (t.trace_id, m)

abbrev fine : Str → ℕ
fine r = 200

middleware-traced_example :
    (middleware instruments fine echo (arrival (traceparent trace)) new_metrics).0
    ≡ (traceparent trace, trace.trace_id)
unfolding bytes
middleware-traced_example =
    middleware-traced instruments fine echo (arrival (traceparent trace)) trace new_metrics refl
      refl refl
