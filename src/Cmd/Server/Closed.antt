-- ===== src/Cmd/Server/Closed.antt =====
-- Requests to the HTTP server of cmd/custody-api/main.go without one of the configured API keys.
use mathlib.Core.List.{Memᴰ}
use mpc_custody.Prelude.{◌+◌, ◌≡◌, ◌≢◌, ap, ◌∙◌, ◌⊎◌, inl, inr, false, Bool-cases, [], Option}
use mpc_custody.Wallet.Interfaces.{Context}
use mpc_custody.Observability.Tracing.{with_trace}
use mpc_custody.Observability.Middleware.{trace_of, record_request, middleware}
use mpc_custody.World.{World, service}
use mpc_custody.Api.Auth.{HttpRequest, provided_key, is_authorized, is_authorized_iff}
use mpc_custody.Api.Handler.{handler}
use mpc_custody.Api.Closed.{mux_closed}
use mpc_custody.Config.{Config}
use mpc_custody.Cmd.Assembly.{Parts, Libraries, assembly}
use mpc_custody.Cmd.Server.{instruments, Web, api_server}
use mpc_custody.Cmd.Server.Keeping.{trace_of_keeps}

not_authorized :
    (cfg : Config) (r : HttpRequest)
    → cfg.api_keys ≢ []
    → (Memᴰ (provided_key r) cfg.api_keys → ⊥)
    → is_authorized cfg.api_keys r ≡ false
not_authorized cfg r some_keys foreign = elim (Bool-cases (is_authorized cfg.api_keys r)) [
  | inr refused ↦ refused
  | inl passed ↦ absurd (no_way ((is_authorized_iff cfg.api_keys r).0 passed))
]
  where
    no_way : (cfg.api_keys ≡ []) ⊎ Memᴰ (provided_key r) cfg.api_keys → ⊥
    no_way (inl e) = some_keys e
    no_way (inr m) = foreign m

-- Where API keys are configured, a request that brings none of them to the server of the whole program
-- changes neither the store nor the nonces, the keys of wallets and what lies beyond the program,
-- whatever its path, its method and its body: it only counts in the metrics.
pub api_server_closed :
    {X K : Type 0} (l : Libraries X K) (cfg : Config) (key : Option K)
    (web : Web (World (Parts X K))) (ctx : Context) (r : HttpRequest) (w : World (Parts X K))
    → cfg.api_keys ≢ []
    → (Memᴰ (provided_key r) cfg.api_keys → ⊥)
    → ((api_server l.outside web cfg.api_keys (service (assembly l cfg key)) ctx r w).1.store
        ≡ w.store)
      × ((api_server l.outside web cfg.api_keys (service (assembly l cfg key)) ctx r w).1.external
          ≡ w.external)
unfolding api_server handler middleware record_request
api_server_closed l cfg key web ctx r w some_keys foreign =
    let later : World _ = record w { tick = w.tick + 1 } in
    let (trace, w') = trace_of (instruments l.outside web.status_text) r.traceparent later in
    let shut =
      mux_closed (service (assembly l cfg key)) web.codec cfg.api_keys (with_trace ctx trace) r w'
        (not_authorized cfg r some_keys foreign) in
    let (same_store, same_parts) = trace_of_keeps l.outside web.status_text r.traceparent later in
    (ap (λ v. v.store) shut ∙ same_store, ap (λ v. v.external) shut ∙ same_parts)
