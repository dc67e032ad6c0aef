-- ===== src/Cmd/Server/Keeping.antt =====
-- A property of the store of internal/store/memory.go that every method of the service keeps is kept by
-- the HTTP server of cmd/custody-api/main.go.
use mpc_custody.Prelude.{
  ℕ, ◌+◌, ◌≡◌, refl, sym, subst, Bool-cases, inl, inr, Option, none, some, List, [], ◌∷◌,
}
use mpc_custody.Go.Str.{Str, str_eq}
use mpc_custody.Wallet.Interfaces.{Context}
use mpc_custody.Observability.Tracing.{with_trace, trace_from_header}
use mpc_custody.Observability.Middleware.{
  trace_of, fresh_trace, random_hex, record_request, middleware,
}
use mpc_custody.Store.Memory.{MemoryStore}
use mpc_custody.World
use mpc_custody.World.{World, Setup, service, ask}
use mpc_custody.World.Requests.{Request, handle, handle_by}
use mpc_custody.Wallet.Service.{Service}
use mpc_custody.World.Among.{service_among}
use mpc_custody.World.Activity.{handle_among}
use mpc_custody.World.Hoare.{Proposals, At}
use mpc_custody.World.Grows.{Grows, Grows-refl, Grows-trans, Steady}
use mpc_custody.Api.Auth.{HttpRequest}
use mpc_custody.Api.Mux.{mux}
use mpc_custody.Api.Handler.{handler}
use mpc_custody.Cmd.Server.{instruments, Web, api_server, serve_http, http_among}
use mpc_custody.Api.Served.{after, mux-Served}

-- The middleware reads the clock and random bytes, and writes metrics.
pub trace_of_keeps :
    {X : Type 0} (outside : World.Outside) (text : ℕ → Str) (header : Str) (w : World X)
    → ((trace_of (instruments outside text) header w).1.store ≡ w.store)
      × ((trace_of (instruments outside text) header w).1.external ≡ w.external)
unfolding trace_of fresh_trace random_hex ask
trace_of_keeps outside text header w =
    elim (Bool-cases (str_eq (trace_from_header header).trace_id [])) [
      | inl fresh ↦ rw (fresh, trace_of) (refl, refl)
      | inr given ↦ rw (given, trace_of) (refl, refl)
    ]

module _ {X : Type 0} (outside : World.Outside) (web : Web (World X)) (keys : List Str)
    (s : Service (World X)) (P : MemoryStore → Type 0)
    (kept : (ctx : Context) (q : Request) (w : World X)
      → P w.store
      → P (handle_by s ctx q w).store) where
  after-keeps :
      (ctx : Context) (q : Option Request) (w : World X) → P w.store → P (after s ctx q w).store
  after-keeps ctx none w h = h
  after-keeps ctx (some q) w h = kept ctx q w h

  mux-keeps :
      (ctx : Context) (r : HttpRequest) (w : World X)
      → P w.store
      → P (mux s web.codec keys ctx r w).1.store
  mux-keeps ctx r w h =
      let served = mux-Served s ctx web.codec keys r w in
      subst (λ v. P v.store) (sym served.left) (after-keeps ctx served.made w h)

  pub api_server-keeps :
      (ctx : Context) (r : HttpRequest) (w : World X)
      → P w.store
      → P (api_server outside web keys s ctx r w).1.store
  unfolding api_server handler middleware record_request
  api_server-keeps ctx r w h =
      let later : World X = record w { tick = w.tick + 1 } in
      let (trace, w') = trace_of (instruments outside web.status_text) r.traceparent later in
      mux-keeps (with_trace ctx trace) r w'
        (subst P (sym (trace_of_keeps outside web.status_text r.traceparent later).0) h)

-- For requests one after the other.
pub serve_http-keeps :
    {X : Type 0} (d : Setup X) (web : Web (World X)) (keys : List Str) (P : MemoryStore → Type 0)
    → ((ctx : Context) (q : Request) (w : World X) → P w.store → P (handle d ctx q w).store)
    → (rs : List (Context × HttpRequest)) (w : World X) → P w.store
    → P (serve_http d web keys rs w).store
unfolding serve_http
serve_http-keeps d web keys P kept [] w h = h
serve_http-keeps d web keys P kept ((ctx, r) ∷ rs) w h =
    serve_http-keeps d web keys P kept rs _
      (api_server-keeps d.outside web keys (service d) P kept ctx r w h)

-- Among others, a request to the server does to the stored proposals what those to the service do.
pub http_among-Steady :
    {X : Type 0} (d : Setup X) (web : Web (World X)) (keys : List Str) (All : Proposals → Type 0)
    (others : World X → World X)
    → ((ctx : Context) (q : Request) → Steady All (handle_among d others ctx q))
    → (ctx : Context) (r : HttpRequest) → Steady All (http_among d web keys others ctx r)
http_among-Steady {X} d web keys All others kept ctx r = record {
  keeps = λ w h. (since w h).0;
  grows = λ w h. (since w h).1;
}
  where
    since :
        (w : World X)
        → At All w
        → All (http_among d web keys others ctx r w).store.transactions
          × Grows w.store.transactions (http_among d web keys others ctx r w).store.transactions
    since w h =
        api_server-keeps d.outside web keys (service_among others d)
          (λ t. All t.transactions × Grows w.store.transactions t.transactions)
          (λ c q v (all, grown).
            ((kept c q).keeps v all, Grows-trans _ _ _ grown ((kept c q).grows v all)))
          ctx r w (h, Grows-refl w.store.transactions)
