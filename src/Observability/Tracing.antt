-- ===== src/Observability/Tracing.antt =====
-- internal/observability/tracing.go: the trace of a request, in the traceparent header, and the
-- route label of a path. The trace that a context carries is with the contexts.
use mpc_custody.Prelude.{
  ℕ, zero, suc, ◌-◌, ◌≡◌, refl, some, [], ◌∷◌, ◌++◌, take, drop, length, length-append, arith, ◌==◌,
  ◌||◌, if◌then◌else◌,
}
use mpc_custody.Go.Str.{Str, str_eq, bytes}
use mpc_custody.Wallet.Interfaces.{Trace, Context}

-- `s[from:to]`, within the bounds
abbrev slice : ℕ → ℕ → Str → Str
slice from to s = take (to - from) (drop from s)

abbrev pub with_trace : Context → Trace → Context
with_trace ctx trace = record ctx { trace = some trace }

abbrev pub no_trace : Trace
no_trace = record { trace_id = []; span_id = [] }

unfoldable pub trace_from_header : Str → Trace
trace_from_header header =
    if length header == 55
    then record { trace_id = slice 3 35 header; span_id = slice 36 52 header }
    else no_trace

-- The header that the middleware writes for a trace.
unfoldable pub traceparent : Trace → Str
traceparent t = bytes "00-" ++ (t.trace_id ++ (bytes "-" ++ (t.span_id ++ bytes "-01")))

unfoldable pub route_label : Str → Str
route_label path =
    if str_eq path (bytes "/healthz")
      || (str_eq path (bytes "/readyz") || str_eq path (bytes "/metrics"))
    then path
    else if str_eq path (bytes "/v1/wallets")
    then bytes "/v1/wallets"
    else if str_eq path (bytes "/v1/transactions")
    then bytes "/v1/transactions"
    else bytes "/v1/transactions/{id}"

-- What follows a string and a separator.
drop_after : (s : Str) (c : ℕ) (t : Str) (n : ℕ) → length s ≡ n → drop (suc n) (s ++ c ∷ t) ≡ t
drop_after [] c t zero h = refl
drop_after [] c t (suc n) h = absurd (omega arith)
drop_after (d ∷ s) c t zero h = absurd (omega arith)
drop_after (d ∷ s) c t (suc n) h = drop_after s c t n (omega arith)

take-append : (s t : Str) (n : ℕ) → length s ≡ n → take n (s ++ t) ≡ s
take-append [] t zero h = refl
take-append [] t (suc n) h = absurd (omega arith)
take-append (c ∷ s) t zero h = absurd (omega arith)
take-append (c ∷ s) t (suc n) h = ground (arith, take-append s t n (omega arith))

header_length :
    (tid sid : Str)
    → length tid ≡ 32
    → length sid ≡ 16
    → length (b'0' ∷ b'0' ∷ b'-' ∷ (tid ++ b'-' ∷ (sid ++ b'-' ∷ b'0' ∷ b'1' ∷ []))) ≡ 55
header_length tid sid h k =
    let outer = length-append tid (b'-' ∷ (sid ++ b'-' ∷ b'0' ∷ b'1' ∷ [])) in
    let inner = length-append sid (b'-' ∷ b'0' ∷ b'1' ∷ []) in omega arith

-- The header that is written for a trace with an id of 32 bytes and a span of 16 is read as that
-- trace.
pub trace_from_header-traceparent :
    (t : Trace)
    → length t.trace_id ≡ 32
    → length t.span_id ≡ 16
    → trace_from_header (traceparent t) ≡ t
unfolding trace_from_header traceparent bytes
trace_from_header-traceparent t h k =
    let tail : Str = t.span_id ++ b'-' ∷ b'0' ∷ b'1' ∷ [] in
    let whole = header_length t.trace_id t.span_id h k in
    let first = take-append t.trace_id (b'-' ∷ tail) 32 h in
    let rest = drop_after t.trace_id b'-' tail 32 h in
    let second = take-append t.span_id (b'-' ∷ b'0' ∷ b'1' ∷ []) 16 k in
    rw (whole, first, rest, second) refl
