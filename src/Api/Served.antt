-- ===== src/Api/Served.antt =====
-- What internal/api/server.go does to the shared state is what a method of the service does, or nothing.
use mpc_custody.Prelude.{
  ◌≡◌, refl, Bool, true, false, Option-cases, inl, inr, Option, none, some, List, if◌then◌else◌,
}
use mpc_custody.Go.Str.{Str, bytes}
use mpc_custody.Go.Exec.{Result, Result-cases}
use mpc_custody.Wallet.Interfaces.{Context}
use mpc_custody.Wallet.Service.{Service}
use mpc_custody.World.Requests.{
  Request, creates_wallet, proposes_transaction, cosigns, broadcasts, gets_transaction,
  lists_audit_events, handle_by,
}
use mpc_custody.Api.Auth.{HttpRequest}
use mpc_custody.Api.Path.{parse_transaction_path}
use mpc_custody.Api.Server.{
  Response, require_api_key, get_transaction, cosign, broadcast, transaction_action,
}
use mpc_custody.Api.Mux.{
  Codec, decode_json, limit_of, health, ready, metrics_handler, create_wallet, propose_transaction,
  list_audit_events, mux,
}

module _ {W : Type 0} (s : Service W) (ctx : Context) where
  -- What is left by the request to the service that a handler makes, if it makes one.
  abbrev pub after : Option Request → W → W
  after none w = w
  after (some q) w = handle_by s ctx q w

  pub record Served (w : W) (m : Response × W) : Type 0 where
    pub made : Option Request
    pub left : m.1 ≡ after made w

  idle : (w : W) (answer : Response) → Served w (answer, w)
  idle w answer = record { made = none; left = refl }

  Served-if :
      (b : Bool) {w : W} {m n : Response × W}
      → Served w m
      → Served w n
      → Served w (if b then m else n)
  Served-if true hm hn = hm
  Served-if false hm hn = hn

  module _ (c : Codec W) (r : HttpRequest) (w : W) where
    create_wallet-Served : Served w (create_wallet s c ctx r w)
    unfolding create_wallet handle_by
    create_wallet-Served = elim (Result-cases (decode_json c.decode_wallet c.at_end r.body)) [
      | inl (chain, e) ↦
          rw (e, create_wallet)
            (record { made = some (creates_wallet chain r.idempotency_key); left = refl })
      | inr (x, e) ↦ rw (e, create_wallet) (idle w _)
    ]

    propose_transaction-Served : Served w (propose_transaction s c ctx r w)
    unfolding propose_transaction handle_by
    propose_transaction-Served =
        elim (Result-cases (decode_json c.decode_transaction c.at_end r.body)) [
          | inl (request, e) ↦
              rw (e, propose_transaction)
                (record {
                  made = some (proposes_transaction request r.idempotency_key);
                  left = refl;
                })
          | inr (x, e) ↦ rw (e, propose_transaction) (idle w _)
        ]

    list_audit_events-Served : Served w (list_audit_events s c ctx r w)
    unfolding list_audit_events handle_by
    list_audit_events-Served = elim (Result-cases (limit_of r)) [
      | inl (limit, e) ↦
          rw (e, list_audit_events)
            (record {
              made = some (
                  lists_audit_events
                    (record { resource_id = r.query (bytes "resource_id"); limit = limit }));
              left = refl;
            })
      | inr (x, e) ↦ rw (e, list_audit_events) (idle w _)
    ]

  module _ (decode : Str → Result Str) (r : HttpRequest) (w : W) where
    get_transaction-Served : (id : Str) → Served w (get_transaction s decode ctx id r w)
    unfolding get_transaction handle_by
    get_transaction-Served id = (record { made = some (gets_transaction id); left = refl })

    cosign-Served : (id : Str) → Served w (cosign s decode ctx id r w)
    unfolding cosign handle_by
    cosign-Served id = elim (Result-cases (decode r.body)) [
      | inl (signer, e) ↦ rw (e, cosign) (record { made = some (cosigns id signer); left = refl })
      | inr (x, e) ↦ rw (e, cosign) (idle w _)
    ]

    broadcast-Served : (id : Str) → Served w (broadcast s decode ctx id r w)
    unfolding broadcast handle_by
    broadcast-Served id = (record { made = some (broadcasts id); left = refl })

    transaction_action-Served : Served w (transaction_action s decode ctx r w)
    unfolding transaction_action
    transaction_action-Served = elim (Option-cases (parse_transaction_path r.path)) [
      | inl other ↦ rw (other, transaction_action) (idle w _)
      | inr ((id, action), found) ↦
          rw (found, transaction_action)
            (search (Served-if, get_transaction-Served, cosign-Served, broadcast-Served, idle))
    ]

  -- A request to the server makes one request to the service at most.
  pub mux-Served :
      (c : Codec W) (keys : List Str) (r : HttpRequest) (w : W) → Served w (mux s c keys ctx r w)
  unfolding mux health ready metrics_handler require_api_key
  mux-Served c keys r w =
      search
        (
          Served-if, create_wallet-Served, propose_transaction-Served, list_audit_events-Served,
          transaction_action-Served, idle,
        )
        depth 12
