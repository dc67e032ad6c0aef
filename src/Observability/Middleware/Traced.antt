-- ===== src/Observability/Middleware/Traced.antt =====
-- The trace that the middleware of internal/observability/tracing.go gives a request.
use mpc_custody.Prelude.{ℕ, suc, ◌≡◌, refl, false, [], ◌∷◌, length, arith}
use mpc_custody.Go.Str.{Str, str_eq}
use mpc_custody.Wallet.Interfaces.{Trace}
use mpc_custody.Observability.Tracing.{traceparent, trace_from_header-traceparent}
use mpc_custody.Observability.Middleware.{Instruments, Arrival, trace_of, middleware}

not_empty : (s : Str) (n : ℕ) → length s ≡ suc n → str_eq s [] ≡ false
unfolding str_eq
not_empty [] n h = absurd (omega arith)
not_empty (c ∷ s) n h = refl

trace_of-traceparent :
    {W : Type 0} (o : Instruments W) (t : Trace) (w : W)
    → length t.trace_id ≡ 32
    → length t.span_id ≡ 16
    → trace_of o (traceparent t) w ≡ (t, w)
unfolding trace_of
trace_of-traceparent o t w h k =
    rw (trace_from_header-traceparent t h k, not_empty t.trace_id 31 h) refl

-- A request that brings the header of a trace, of 32 and 16 digits, is served under that trace, and is
-- answered with the same header.
pub middleware-traced :
    {W R : Type 0} (o : Instruments W) (status_of : R → ℕ) (next : Trace → W → R × W) (r : Arrival)
    (t : Trace) (w : W)
    → length t.trace_id ≡ 32
    → length t.span_id ≡ 16
    → r.traceparent ≡ traceparent t
    → (middleware o status_of next r w).0 ≡ (traceparent t, (next t (o.now w).1).0)
unfolding middleware
middleware-traced o status_of next r t w h k same =
    rw (same, trace_of-traceparent o t (o.now w).1 h k) refl
