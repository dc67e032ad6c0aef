-- ===== src/World/Among.antt =====
-- internal/wallet/service.go among other requests: the HTTP server of cmd/custody-api/main.go runs each
-- request in a goroutine of its own, and the mutex of internal/store/memory.go lets their calls of the
-- store come in any order. What others do to the shared state meanwhile is a function `others`, and is
-- met at each call of the store.
use mpc_custody.Wallet.Interfaces.{Store}
use mpc_custody.Wallet.Service.{Service}
use mpc_custody.World.{World, Setup, memory_store, service}

module _ {X : Type 0} (others : World X → World X) where
  abbrev pub store_among : Store (World X)
  store_among = record {
    create_wallet = λ ctx v w. memory_store.create_wallet ctx v (others w);
    create_wallet_idempotently =
        λ ctx v r w. memory_store.create_wallet_idempotently ctx v r (others w);
    get_wallet = λ ctx id w. memory_store.get_wallet ctx id (others w);
    create_transaction = λ ctx p w. memory_store.create_transaction ctx p (others w);
    create_transaction_idempotently =
        λ ctx p r w. memory_store.create_transaction_idempotently ctx p r (others w);
    get_transaction = λ ctx id w. memory_store.get_transaction ctx id (others w);
    add_approval = λ ctx id a w. memory_store.add_approval ctx id a (others w);
    mark_transaction_signed =
        λ ctx id payload w. memory_store.mark_transaction_signed ctx id payload (others w);
    update_transaction = λ ctx p w. memory_store.update_transaction ctx p (others w);
    append_audit_event = λ ctx e w. memory_store.append_audit_event ctx e (others w);
    list_audit_events = λ ctx f w. memory_store.list_audit_events ctx f (others w);
  }

  -- Where `others` leaves the state alone, this is the service.
  abbrev pub service_among : Setup X → Service (World X)
  service_among d = record (service d) { store = store_among }
