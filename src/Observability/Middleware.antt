-- ===== src/Observability/Middleware.antt =====
-- Middleware of internal/observability/tracing.go, around any handler: `R` is what it writes. The log
-- line is left out.
mod Counted
mod Traced
mod Examples
use mpc_custody.Prelude.{ℕ, ◌-◌, ◌≡◌, [], ◌∷◌, if◌then◌else◌}
use mpc_custody.Go.Str.{Str, str_eq, bytes}
use mpc_custody.Go.Dict.{Dict}
use mpc_custody.Go.Hex.{hex_encode}
use mpc_custody.Go.Exec.{Result, ok, err, Exec}
use mpc_custody.Wallet.Types.{Time}
use mpc_custody.Wallet.Interfaces.{Trace}
use mpc_custody.Observability.Metrics.{Metrics, inc, observe_duration}
use mpc_custody.Observability.Tracing.{trace_from_header, traceparent, route_label}

-- The state `W` that handlers share: its metrics, the clock and crypto/rand, and the texts of statuses
-- of net/http.
pub record Instruments (W : Type 0) : Type 0 where
  pub metrics : W → Metrics
  pub with_metrics : Metrics → W → W
  pub now : W → Time × W
  pub rand_read : ℕ → Exec W Str
  pub status_text : ℕ → Str

-- What the middleware reads of a request.
pub record Arrival : Type 0 where
  pub method : Str
  pub path : Str
  pub traceparent : Str

abbrev pub labels_of : Arrival → Str → Dict Str
labels_of r status =
    (bytes "method", r.method) ∷ (bytes "path", route_label r.path) ∷ (bytes "status", status) ∷ []

abbrev hex_or_zeros : Result Str → Str
hex_or_zeros (ok raw) = hex_encode raw
hex_or_zeros (err e) = bytes "0000000000000000"

module _ {W : Type 0} (o : Instruments W) where
  unfoldable pub random_hex : ℕ → W → Str × W
  random_hex size w = let (raw, w') = o.rand_read size w in (hex_or_zeros raw, w')

  unfoldable pub fresh_trace : W → Trace × W
  unfolding random_hex
  fresh_trace w =
      let (trace_id, w') = random_hex 16 w in
      let (span_id, w'') = random_hex 8 w' in
      (record { trace_id = trace_id; span_id = span_id }, w'')

  unfoldable pub trace_of : Str → W → Trace × W
  unfolding fresh_trace trace_from_header
  trace_of header w =
      if str_eq (trace_from_header header).trace_id []
      then fresh_trace w
      else (trace_from_header header, w)

  unfoldable pub record_request : Dict Str → Time → W → W
  unfolding inc observe_duration
  record_request labels start w =
      let w' = o.with_metrics (inc (bytes "custody_http_requests_total") labels (o.metrics w)) w in
      let (finish, w'') = o.now w' in
      o.with_metrics
        (observe_duration (bytes "custody_http_request_duration_seconds") labels (finish - start)
          (o.metrics w''))
        w''

  -- The traceparent header and what the handler writes; the time.Duration is not negative, since Go's
  -- clock for it is monotonic.
  unfoldable pub middleware :
      {R : Type 0} → (R → ℕ) → (Trace → W → R × W) → Arrival → W → (Str × R) × W
  unfolding trace_of record_request traceparent
  middleware status_of next r w =
      let (start, w1) = o.now w in
      let (trace, w2) = trace_of r.traceparent w1 in
      let (response, w3) = next trace w2 in
      (
        (traceparent trace, response),
        record_request (labels_of r (o.status_text (status_of response))) start w3,
      )
