-- ===== src/Observability/Examples.antt =====
-- A trace that is written to a header and read again.
use mpc_custody.Prelude.{◌≡◌, refl}
use mpc_custody.Go.Str.{bytes}
use mpc_custody.Wallet.Interfaces.{Trace}
use mpc_custody.Observability.Tracing.{
  trace_from_header, traceparent, route_label, trace_from_header-traceparent,
}

abbrev trace : Trace
trace = record {
  trace_id = bytes "0af7651916cd43dd8448eb211c80319c";
  span_id = bytes "b7ad6b7169203331";
}

-- The audit route has the label of a transaction.
audit_label : route_label (bytes "/v1/audit/events") ≡ bytes "/v1/transactions/{id}"
unfolding route_label mpc_custody.Go.Str.str_eq bytes
audit_label = refl

trace_from_header-traceparent_example : trace_from_header (traceparent trace) ≡ trace
unfolding bytes
trace_from_header-traceparent_example = trace_from_header-traceparent trace refl refl
