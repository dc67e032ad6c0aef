-- ===== src/Api/Handler.antt =====
-- Handler of internal/api/server.go: the mux inside the middleware.
use mpc_custody.Prelude.{ℕ, List}
use mpc_custody.Go.Str.{Str}
use mpc_custody.Wallet.Interfaces.{Context}
use mpc_custody.Wallet.Service.{Service}
use mpc_custody.Observability.Tracing.{with_trace}
use mpc_custody.Observability.Middleware.{Instruments, middleware}
use mpc_custody.Api.Auth.{HttpRequest}
use mpc_custody.Api.Server.{
  Response, answers, answers_wallet, answers_events, reports, exposes, redirects,
  method_not_allowed, page_not_found, fails,
}
use mpc_custody.Api.Mux.{Codec, mux}

-- The status that a response is written with; `moved` is that of a redirect of net/http.
unfoldable pub status_of : ℕ → Response → ℕ
status_of moved (answers status _) = status
status_of moved (answers_wallet status _) = status
status_of moved (answers_events status _) = status
status_of moved (reports _) = 200
status_of moved (exposes _) = 200
status_of moved (redirects _) = moved
status_of moved method_not_allowed = 405
status_of moved page_not_found = 404
status_of moved (fails status _) = status

-- What the server writes, and its traceparent header.
unfoldable pub handler :
    {W : Type 0}
    → Instruments W
    → ℕ
    → Service W
    → Codec W
    → List Str
    → Context
    → HttpRequest
    → W
    → (Str × Response) × W
unfolding status_of middleware mux
handler o moved s c keys ctx r w =
    middleware o (status_of moved) (λ trace. mux s c keys (with_trace ctx trace) r)
      (record { method = r.method; path = r.path; traceparent = r.traceparent }) w
