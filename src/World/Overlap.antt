-- ===== src/World/Overlap.antt =====
-- Preorders on the in-memory store (internal/store/memory.go) under requests that overlap.
use mpc_custody.Prelude.{◌≡◌, List, ◌++◌, some}
use mpc_custody.Go.Str.{Str}
use mpc_custody.Go.Dict.{lookup}
use mpc_custody.Go.Exec.{Exec}
use mpc_custody.Go.Exec.Within.{Preorder, Within}
use mpc_custody.Wallet.Types.{Wallet, AuditEvent}
use mpc_custody.Wallet.Interfaces.{Context}
use mpc_custody.Wallet.Effects.{IsConfined}
use mpc_custody.Store.Memory.{MemoryStore}
use mpc_custody.Store.Memory.Calls.{Call, apply, apply-keeps_wallet}
use mpc_custody.World.{World, Setup, service}
use mpc_custody.World.Among.{service_among}
use mpc_custody.World.Requests.{Request}
use mpc_custody.World.Order.{HasOwnState, store_order, service-IsConfined, handle_by-rel}
use mpc_custody.World.Trail.{audit_order, apply-Extends, wallet_order}
use mpc_custody.World.Activity.{Activity, run, run_has, handle_among}

module _ {W A : Type 0} {o : Preorder W} where
  Within-after :
      {m : Exec W A} (f : W → W) → ((w : W) → o.rel w (f w)) → Within o m → Within o (λ w. m (f w))
  Within-after {m = m} f moves h = record {
    at = λ w. o.rel_trans w (f w) (m (f w)).1 (moves w) (h.at (f w));
  }

module _ {X : Type 0} (o : Preorder (World X)) (d : Setup X) (others : World X → World X)
    (moves : (w : World X) → o.rel w (others w)) (c : IsConfined o (service d)) where
  pub service_among-IsConfined : IsConfined o (service_among others d)
  service_among-IsConfined = record {
    quiet = record {
      inc_within = c.quiet.inc_within;
      now_within = c.quiet.now_within;
      rand_within = c.quiet.rand_within;
      audit_within = λ ctx e. Within-after others moves (c.quiet.audit_within ctx e);
      key_within = c.quiet.key_within;
      sign_within = c.quiet.sign_within;
      build_within = c.quiet.build_within;
      send_within = c.quiet.send_within;
    };
    create_wallet_within = λ ctx w. Within-after others moves (c.create_wallet_within ctx w);
    create_wallet_idempotently_within =
        λ ctx w r. Within-after others moves (c.create_wallet_idempotently_within ctx w r);
    get_wallet_within = λ ctx id. Within-after others moves (c.get_wallet_within ctx id);
    create_transaction_within =
        λ ctx p. Within-after others moves (c.create_transaction_within ctx p);
    create_transaction_idempotently_within =
        λ ctx p r. Within-after others moves (c.create_transaction_idempotently_within ctx p r);
    get_transaction_within = λ ctx id. Within-after others moves (c.get_transaction_within ctx id);
    add_approval_within = λ ctx id a. Within-after others moves (c.add_approval_within ctx id a);
    mark_transaction_signed_within = λ ctx id payload.
        Within-after others moves (c.mark_transaction_signed_within ctx id payload);
    update_transaction_within =
        λ ctx p. Within-after others moves (c.update_transaction_within ctx p);
    list_audit_events_within =
        λ ctx f. Within-after others moves (c.list_audit_events_within ctx f);
  }

module _ {X : Type 0} (o : Preorder MemoryStore)
    (moves : (c : _) (call : Call) (s : MemoryStore) → o.rel s (apply c call s).1) (d : Setup X)
    (own : HasOwnState d) where
  pub handle_among-rel :
      (others : World X → World X) (ctx : Context) (r : Request)
      → ((w : World X) → o.rel w.store (others w).store)
      → (w : World X) → o.rel w.store (handle_among d others ctx r w).store
  handle_among-rel others ctx r h =
      handle_by-rel
        (service_among-IsConfined (store_order o) d others h (service-IsConfined o moves d own)) ctx
        r

pub run-rel :
    {X R : Type 0} (o : Preorder MemoryStore)
    (serve : (World X → World X) → Context → R → World X → World X)
    → ((others : World X → World X) (ctx : Context) (r : R)
        → ((w : World X) → o.rel w.store (others w).store)
        → (w : World X) → o.rel w.store (serve others ctx r w).store)
    → (a : Activity R) (w : World X) → o.rel w.store (run serve a w).store
run-rel o serve request a =
    run_has serve (λ f. (w : World _) → o.rel w.store (f w).store) (λ w. o.rel_refl w.store)
      (λ f g hf hg w. o.rel_trans w.store (f w).store (g (f w)).store (hf w) (hg (f w)))
      (λ f h w. h w.tick w) request a

-- Of requests that overlap, whatever these do, the audit events that were recorded stay where they
-- are, new ones come after them, and no stored wallet changes or goes, where adapters and backend do
-- not reach into the store.
pub run_keeps_trail :
    {X : Type 0} (d : Setup X) (a : Activity Request) (w : World X)
    → HasOwnState d
    → ((new : List AuditEvent) × ((run (handle_among d) a w).store.audit_events
          ≡ w.store.audit_events ++ new))
      × ((id : Str) (v : Wallet)
          → lookup id w.store.wallets ≡ some v
          → lookup id (run (handle_among d) a w).store.wallets ≡ some v)
run_keeps_trail d a w own = (
  run-rel audit_order (handle_among d) (handle_among-rel audit_order apply-Extends d own) a w,
  run-rel wallet_order (handle_among d) (handle_among-rel wallet_order apply-keeps_wallet d own) a
      w,
)
