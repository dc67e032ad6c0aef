-- ===== src/Api/Mux.antt =====
-- The routes of internal/api/server.go and its other handlers. The routing is that of net/http: GET
-- takes HEAD too, a path that ends in a slash takes every path below it, and one that lacks only this
-- slash is redirected. Paths are clean.
use mpc_custody.Prelude.{Bool, ◌||◌, none, some, List, [], if◌then◌else◌}
use mpc_custody.Errors.{message}
use mpc_custody.Go.Str.{Str, str_eq, bytes}
use mpc_custody.Go.Int.{ℤ, pos}
use mpc_custody.Go.Split.{has_prefix}
use mpc_custody.Go.Strconv.{parse_int}
use mpc_custody.Go.Exec.{Result, ok, err}
use mpc_custody.Wallet.Types.{Chain, TransactionRequest}
use mpc_custody.Wallet.Interfaces.{Context}
use mpc_custody.Wallet.Service
use mpc_custody.Wallet.Service.{Service}
use mpc_custody.Api.Auth.{HttpRequest}
use mpc_custody.Api.Path
use mpc_custody.Api.Server.{
  answers, answers_wallet, answers_events, reports, exposes, redirects, method_not_allowed,
  page_not_found, write_error, respond_with, Handler, require_api_key, transaction_action,
}

-- What encoding/json reads: the first value of a body and what follows it, with unknown fields as an
-- error, and whether nothing but the end follows. `render` is the text of the metrics.
pub record Codec (W : Type 0) : Type 0 where
  pub decode_wallet : Str → Result (Chain × Str)
  pub decode_transaction : Str → Result (TransactionRequest × Str)
  pub decode_cosign : Str → Result (Str × Str)
  pub at_end : Str → Bool
  pub render : W → Str

-- decodeJSON; its errors are answered with the status 400.
abbrev single : {A : Type 0} → (Str → Bool) → A × Str → Result A
single at_end (a, rest) =
    if at_end rest
    then ok a
    else err (message (bytes "request body must contain a single json object"))

unfoldable pub decode_json : {A : Type 0} → (Str → Result (A × Str)) → (Str → Bool) → Str → Result A
decode_json decode at_end body = elim (decode body) [ err e ↦ err e | ok read ↦ single at_end read ]

unfoldable pub limit_of : HttpRequest → Result ℤ
limit_of r =
    if str_eq (r.query (bytes "limit")) []
    then ok (pos 100)
    else elim (parse_int (r.query (bytes "limit"))) [
      | none ↦ err (message (bytes "limit must be an integer"))
      | some limit ↦ ok limit
    ]

module _ {W : Type 0} (s : Service W) (c : Codec W) (ctx : Context) where
  unfoldable pub health : Handler W
  health r w = (reports (bytes "ok"), w)

  unfoldable pub ready : Handler W
  ready r w = (reports (bytes "ready"), w)

  unfoldable pub metrics_handler : Handler W
  metrics_handler r w = (exposes (c.render w), w)

  unfoldable pub create_wallet : Handler W
  unfolding decode_json
  create_wallet r w = elim (decode_json c.decode_wallet c.at_end r.body) [
    | err e ↦ (write_error 400 e, w)
    | ok chain ↦
        let (created, w') = Service.create_wallet s ctx chain r.idempotency_key w in
        (respond_with (answers_wallet 201) created, w')
  ]

  unfoldable pub propose_transaction : Handler W
  unfolding decode_json
  propose_transaction r w = elim (decode_json c.decode_transaction c.at_end r.body) [
    | err e ↦ (write_error 400 e, w)
    | ok request ↦
        let (p, w') = Service.propose_transaction s ctx request r.idempotency_key w in
        (respond_with (answers 201) p, w')
  ]

  unfoldable pub list_audit_events : Handler W
  unfolding limit_of
  list_audit_events r w = elim (limit_of r) [
    | err e ↦ (write_error 400 e, w)
    | ok limit ↦
        let (events, w') =
          Service.list_audit_events s ctx
            (record { resource_id = r.query (bytes "resource_id"); limit = limit }) w in
        (respond_with (answers_events 200) events, w')
  ]

abbrev is_get : Str → Bool
is_get method = str_eq method (bytes "GET") || str_eq method (bytes "HEAD")

abbrev is_post : Str → Bool
is_post method = str_eq method (bytes "POST")

-- The handler of a path that takes some methods only.
abbrev allow : {W : Type 0} → Bool → Handler W → Handler W
allow allowed next r w = if allowed then next r w else (method_not_allowed, w)

module _ {W : Type 0} (s : Service W) (c : Codec W) (keys : List Str) (ctx : Context) where
  unfoldable pub mux : Handler W
  unfolding health ready metrics_handler create_wallet propose_transaction list_audit_events
      transaction_action require_api_key
  mux r w =
      if str_eq r.path (bytes "/healthz")
      then allow (is_get r.method) (health s c ctx) r w
      else if str_eq r.path (bytes "/readyz")
      then allow (is_get r.method) (ready s c ctx) r w
      else if str_eq r.path (bytes "/metrics")
      then allow (is_get r.method) (metrics_handler s c ctx) r w
      else if str_eq r.path (bytes "/v1/wallets")
      then allow (is_post r.method) (require_api_key keys (create_wallet s c ctx)) r w
      else if str_eq r.path (bytes "/v1/transactions")
      then (if is_post r.method
          then require_api_key keys (propose_transaction s c ctx) r w
          else if is_get r.method
          then (redirects (bytes "/v1/transactions/"), w)
          else (method_not_allowed, w))
      else if str_eq r.path (bytes "/v1/audit/events")
      then allow (is_get r.method) (require_api_key keys (list_audit_events s c ctx)) r w
      else if has_prefix Path.route r.path
      then allow (is_get r.method || is_post r.method)
          (require_api_key keys (transaction_action s (decode_json c.decode_cosign c.at_end) ctx)) r
          w
      else (page_not_found, w)
