-- ===== src/World/Keeping.antt =====
-- A property of the stored proposals under CreateWallet and ProposeTransaction of internal/wallet/service.go, and under
-- runs of requests.
use mpc_custody.Prelude.{◌≡◌, refl, Bool, true, false, Option, List, [], ◌∷◌, arith}
use mpc_custody.Errors.{Error}
use mpc_custody.Go.Str.{Str, str_eq}
use mpc_custody.Go.Exec.{Exec}
use mpc_custody.Go.Exec.Within.{Within}
use mpc_custody.Go.Exec.Triple.{
  Post-error, Triple, Triple-after, Triple-pure, Triple-if, Triple-bind, Triple-guard,
  Triple-lift_bind,
}
use mpc_custody.Wallet.Types.{
  Chain, Time, Wallet, TransactionRequest, TransactionProposal, IdempotencyRecord,
}
use mpc_custody.Wallet.Interfaces.{Context}
use mpc_custody.Wallet.Effects.{new_id-Within}
use mpc_custody.Wallet.Service.{
  create_wallet, store_wallet, finish_wallet, propose_transaction, store_proposal, finish_proposal,
  adapter_for, new_proposal, get_transaction, list_audit_events,
}
use mpc_custody.Store.Memory
use mpc_custody.Store.Memory.{MemoryStore}
use mpc_custody.World.{World, Setup, on_store}
use mpc_custody.World.Among.{service_among}
use mpc_custody.World.Grows.{Steady, undisturbed}
use mpc_custody.World.Requests.{
  Request, creates_wallet, proposes_transaction, cosigns, broadcasts, gets_transaction,
  lists_audit_events, handle, handle_by, serve,
}
use mpc_custody.World.Order.{HasOwnState, store_order, on_store-Within}
use mpc_custody.World.Invariant.{Invariant, IsNew}
use mpc_custody.World.Hoare.{At, same_proposals, Triple-Within}
use mpc_custody.World.Steps.{create_transaction-Triple, create_transaction_idempotently-Triple}
use mpc_custody.World.Safety.{
  quiet, audited, Triple-among, adapter_found, cosign-Triple, broadcast-Triple,
}

create_wallet-same :
    (c : Option Error) (v : Wallet) (s : MemoryStore)
    → (Memory.create_wallet c v s).1.transactions ≡ s.transactions
unfolding Memory.create_wallet
create_wallet-same c v s = ground arith

create_wallet_idempotently-same :
    (c : Option Error) (v : Wallet) (r : IdempotencyRecord) (s : MemoryStore)
    → (Memory.create_wallet_idempotently c v r s).1.transactions ≡ s.transactions
unfolding Memory.create_wallet_idempotently
create_wallet_idempotently-same c v r s = ground arith

get_wallet-same :
    (c : Option Error) (id : Str) (s : MemoryStore)
    → (Memory.get_wallet c id s).1.transactions ≡ s.transactions
unfolding Memory.get_wallet
get_wallet-same c id s = ground arith

get_transaction-same :
    (c : Option Error) (id : Str) (s : MemoryStore)
    → (Memory.get_transaction c id s).1.transactions ≡ s.transactions
unfolding Memory.get_transaction
get_transaction-same c id s = ground arith

list_audit_events-same :
    (c : Option Error) (f : _) (s : MemoryStore)
    → (Memory.list_audit_events c f s).1.transactions ≡ s.transactions
unfolding Memory.list_audit_events
list_audit_events-same c f s = ground arith

module _ {X : Type 0} (d : Setup X) (own : HasOwnState d) (inv : Invariant d.policy)
    (others : World X → World X) (steady : Steady inv.All others) where
  -- An action that leaves the proposals alone.
  kept :
      {A : Type 0} (m : Exec (World X) A)
      → Within (store_order same_proposals) m
      → Triple (At inv.All) (At inv.All) m (λ _. At inv.All)
  kept m h = Triple-Within inv.All inv.All m (λ t s. s) h

  -- A method of the store that does, called after others.
  kept_among :
      {A : Type 0} (ctx : Context) (f : Option Error → Exec MemoryStore A)
      → ((c : Option Error) (t : MemoryStore) → (f c t).1.transactions ≡ t.transactions)
      → Triple (At inv.All) (At inv.All) (λ w. on_store ctx f (others w)) (λ _. At inv.All)
  kept_among ctx f same =
      Triple-after others steady.keeps
        (kept _ (on_store-Within same_proposals ctx f λ c. record { at = same c }))

  store_wallet-Triple :
      (ctx : Context) (chain : Chain) (key : Str) (v : Wallet)
      → Triple
          (At inv.All)
          (At inv.All)
          (store_wallet (service_among others d) ctx chain key v)
          (λ _. At inv.All)
  unfolding store_wallet
  store_wallet-Triple ctx chain key v =
      Triple-if (str_eq key [])
        (λ _.
          Triple-bind (kept_among ctx _ (λ c. create_wallet-same c v))
            λ _. Triple-pure _ _ (λ w s. s))
        (λ _.
          Triple-bind (kept _ (quiet d own inv others steady).now_within)
            λ now. kept_among ctx _ (λ c. create_wallet_idempotently-same c v _))

  finish_wallet-Triple :
      (ctx : Context) (chain : Chain) (r : Wallet × Bool)
      → Triple
          (At inv.All)
          (At inv.All)
          (finish_wallet (service_among others d) ctx chain r)
          (λ _. At inv.All)
  unfolding finish_wallet
  finish_wallet-Triple ctx chain (v, false) = Triple-pure v _ (λ w s. s)
  finish_wallet-Triple ctx chain (v, true) =
      Triple-bind (audited d own inv others steady ctx _) λ _.
        Triple-bind (kept _ ((quiet d own inv others steady).inc_within _ _))
          λ _. Triple-pure v _ (λ w s. s)

  create_wallet-Triple :
      (ctx : Context) (chain : Chain) (key : Str)
      → Triple
          (At inv.All)
          (At inv.All)
          (create_wallet (service_among others d) ctx chain key)
          (λ _. At inv.All)
  unfolding create_wallet
  create_wallet-Triple ctx chain key =
      Triple-guard _ _ _ (λ w s. s)
        λ _. Triple-bind (kept _ (new_id-Within (quiet d own inv others steady) _)) λ id.
          Triple-bind (kept _ ((quiet d own inv others steady).key_within ctx id chain)) λ m.
            Triple-bind (kept _ (quiet d own inv others steady).now_within) λ now.
              Triple-bind (store_wallet-Triple ctx chain key _) (finish_wallet-Triple ctx chain)

  store_proposal-Triple :
      (ctx : Context) (r : TransactionRequest) (key : Str) (now : Time) (p : TransactionProposal)
      → IsNew d.policy p
      → Triple
          (At inv.All)
          (At inv.All)
          (store_proposal (service_among others d) ctx r key now p)
          (λ _. At inv.All)
  unfolding store_proposal
  store_proposal-Triple ctx r key now p h =
      Triple-if (str_eq key [])
        (λ _.
          Triple-bind
            (Triple-among d own inv others steady inv.All (λ _. inv.All) ctx _ steady.keeps
              λ c. create_transaction-Triple d.policy inv c p h)
            λ _. Triple-pure _ _ (λ w s. s))
        (λ _.
          Triple-among d own inv others steady inv.All (λ _. inv.All) ctx _ steady.keeps
            λ c. create_transaction_idempotently-Triple d.policy inv c p _ h)

  finish_proposal-Triple :
      (ctx : Context) (chain : Chain) (r : TransactionProposal × Bool)
      → Triple
          (At inv.All)
          (At inv.All)
          (finish_proposal (service_among others d) ctx chain r)
          (λ _. At inv.All)
  unfolding finish_proposal
  finish_proposal-Triple ctx chain (p, false) = Triple-pure p _ (λ w s. s)
  finish_proposal-Triple ctx chain (p, true) =
      Triple-bind (audited d own inv others steady ctx _) λ _.
        Triple-bind (kept _ ((quiet d own inv others steady).inc_within _ _))
          λ _. Triple-pure p _ (λ w s. s)

  propose_transaction-Triple :
      (ctx : Context) (r : TransactionRequest) (key : Str)
      → Triple
          (At inv.All)
          (At inv.All)
          (propose_transaction (service_among others d) ctx r key)
          (λ _. At inv.All)
  unfolding propose_transaction adapter_for new_proposal
  propose_transaction-Triple ctx r key =
      Triple-bind (kept_among ctx _ (λ c. get_wallet-same c r.wallet_id)) λ v.
        Triple-lift_bind _ _ (λ w s. s)
          λ _ allowed.
            Triple-lift_bind _ _ (λ w s. s)
              λ a found.
                Triple-bind
                  (kept _ (
                    (quiet d own inv others steady).build_within ctx v.chain a v r
                      (adapter_found d own inv others steady v.chain found)))
                  λ raw.
                    Triple-bind (kept _ (new_id-Within (quiet d own inv others steady) _)) λ id.
                      Triple-bind (kept _ (quiet d own inv others steady).now_within) λ now.
                        Triple-bind
                          (store_proposal-Triple ctx r key now _
                            (record { is_open = refl; no_approvals = refl; admitted = allowed }))
                          (finish_proposal-Triple ctx v.chain)

  -- A method leaves a store with the property, however it ends.
  leaves :
      {A : Type 0} {m : Exec (World X) A} (w : World X)
      → Triple (At inv.All) (At inv.All) m (λ _. At inv.All)
      → inv.All w.store.transactions
      → inv.All (m w).1.store.transactions
  leaves {m = m} w t h = Post-error (At inv.All) (m w).0 (m w).1 (t.at w h)

  -- Served among others, a request leaves a store with the property too.
  pub handle_among-keeps :
      (ctx : Context) (r : Request) (w : World X)
      → inv.All w.store.transactions
      → inv.All (handle_by (service_among others d) ctx r w).store.transactions
  unfolding handle_by get_transaction list_audit_events
  handle_among-keeps ctx (creates_wallet chain key) w =
      leaves w (create_wallet-Triple ctx chain key)
  handle_among-keeps ctx (proposes_transaction r key) w =
      leaves w (propose_transaction-Triple ctx r key)
  handle_among-keeps ctx (cosigns id signer) w =
      leaves w (cosign-Triple d own inv others steady ctx id signer)
  handle_among-keeps ctx (broadcasts id) w =
      leaves w (broadcast-Triple d own inv others steady ctx id)
  handle_among-keeps ctx (gets_transaction id) w =
      leaves w (kept_among ctx _ (λ c. get_transaction-same c id))
  handle_among-keeps ctx (lists_audit_events f) w =
      leaves w (kept_among ctx _ (λ c. list_audit_events-same c f))

module _ {X : Type 0} (d : Setup X) (own : HasOwnState d) (inv : Invariant d.policy) where
  pub serve-keeps :
      (rs : List (Context × Request)) (w : World X)
      → inv.All w.store.transactions
      → inv.All (serve d rs w).store.transactions
  unfolding serve
  serve-keeps [] w h = h
  serve-keeps ((ctx, r) ∷ rs) w h =
      serve-keeps rs (handle d ctx r w)
        (handle_among-keeps d own inv (λ v. v) (undisturbed inv.All) ctx r w h)
