-- ===== src/Cmd/Server.antt =====
-- cmd/custody-api/main.go: the server over the service that main puts together, and what requests to it
-- leave, one after the other or among others.
pub mod Keeping
pub mod Custody
pub mod History
mod Closed
pub mod Examples
use mpc_custody.Prelude.{ℕ, ◌+◌, Option, List, [], ◌∷◌}
use mpc_custody.Go.Str.{Str}
use mpc_custody.Go.Exec.{Exec}
use mpc_custody.Wallet.Interfaces.{Context}
use mpc_custody.Observability.Middleware.{Instruments}
use mpc_custody.World
use mpc_custody.World.Among.{service_among}
use mpc_custody.Wallet.Service.{Service}
use mpc_custody.World.{World, Setup, service, ask}
use mpc_custody.Api.Auth.{HttpRequest}
use mpc_custody.Api.Server.{Response}
use mpc_custody.Api.Mux.{Codec}
use mpc_custody.Api.Handler.{handler}

-- The state of the middleware of a service: its metrics, and the clock and crypto/rand of `outside`.
abbrev pub instruments : {X : Type 0} → World.Outside → (ℕ → Str) → Instruments (World X)
instruments outside status_text = record {
  metrics = λ w. w.metrics;
  with_metrics = λ m w. record w { metrics = m };
  now = λ w. (outside.now_at w.tick, record w { tick = w.tick + 1 });
  rand_read = λ size. ask (λ n. outside.random_at n size);
  status_text = status_text;
}

-- What net/http and encoding/json give: the texts of statuses, the status of a redirect, and how
-- bodies are read.
pub record Web (W : Type 0) : Type 0 where
  pub status_text : ℕ → Str
  pub moved : ℕ
  pub codec : Codec W

module _ {X : Type 0} (outside : World.Outside) (web : Web (World X)) (keys : List Str)
    (s : Service (World X)) where
  -- NewServer and its Handler
  unfoldable pub api_server : Context → HttpRequest → World X → (Str × Response) × World X
  unfolding handler
  api_server = handler (instruments outside web.status_text) web.moved s web.codec keys

module _ {X : Type 0} (d : Setup X) (web : Web (World X)) (keys : List Str) where
  -- Requests one after the other, each with its context.
  unfoldable pub serve_http : List (Context × HttpRequest) → World X → World X
  unfolding api_server
  serve_http [] w = w
  serve_http ((ctx, r) ∷ rest) w =
      serve_http rest (api_server d.outside web keys (service d) ctx r w).1

  -- One request among others, of which net/http serves each in a goroutine of its own.
  abbrev pub http_among : (World X → World X) → Context → HttpRequest → World X → World X
  http_among others ctx r w = (api_server d.outside web keys (service_among others d) ctx r w).1
