-- ===== src/World/Order.antt =====
-- Preorders on the in-memory store (internal/store/memory.go) under the requests to the service: what
-- each call moves along, a run of requests moves along.
use mpc_custody.Prelude.{ℕ, ◌≡◌, sym, subst, Option, some, List, [], ◌∷◌}
use mpc_custody.Errors.{Error}
use mpc_custody.Go.Str.{Str}
use mpc_custody.Go.Dict.{lookup}
use mpc_custody.Go.Exec.{Result, Exec}
use mpc_custody.Go.Exec.Within.{Preorder, Within}
use mpc_custody.Wallet.Types.{Chain, Wallet, TransactionRequest, TransactionProposal, AuditEvent}
use mpc_custody.Wallet.Interfaces.{Context, ChainAdapter}
use mpc_custody.Wallet.Effects.{
  IsQuiet, IsConfined, create_wallet-Within, propose_transaction-Within, cosign-Within,
  broadcast-Within,
}
use mpc_custody.Wallet.Service
use mpc_custody.Wallet.Service.{Service, new_chain_registry}
use mpc_custody.Store.Memory.{MemoryStore, append_audit_event}
use mpc_custody.Store.Memory.Calls
use mpc_custody.Store.Memory.Calls.{Call, apply, outcome-state}
use mpc_custody.World.{World, Setup, service, on_store, ask, count_metric}
use mpc_custody.World.Requests.{
  Request, creates_wallet, proposes_transaction, cosigns, broadcasts, gets_transaction,
  lists_audit_events, handle, handle_by, serve,
}

-- An action that leaves the store alone.
pub record KeepsStore {X A : Type 0} (m : Exec (World X) A) : Type 0 where
  pub at : (w : World X) → (m w).1.store ≡ w.store

-- The adapters and the backend do not reach into the store.
pub record HasOwnState {X : Type 0} (d : Setup X) : Type 0 where
  pub key_keeps :
      (ctx : Context) (id : Str) (chain : Chain) → KeepsStore (d.signer.create_wallet ctx id chain)
  pub sign_keeps :
      (ctx : Context) (p : TransactionProposal) → KeepsStore (d.signer.sign_transaction ctx p)
  pub build_keeps :
      (ctx : Context) (chain : Chain) (a : ChainAdapter (World X)) (w : Wallet)
      (r : TransactionRequest)
      → lookup chain (new_chain_registry d.adapters) ≡ some a
      → KeepsStore (a.build_transaction ctx w r)
  pub send_keeps :
      (ctx : Context) (chain : Chain) (a : ChainAdapter (World X)) (payload : Str)
      → lookup chain (new_chain_registry d.adapters) ≡ some a
      → KeepsStore (a.broadcast ctx payload)

abbrev pub store_order : {X : Type 0} → Preorder MemoryStore → Preorder (World X)
store_order o = record {
  rel = λ v w. o.rel v.store w.store;
  rel_refl = λ w. o.rel_refl w.store;
  rel_trans = λ u v w. o.rel_trans u.store v.store w.store;
}

module _ {X : Type 0} (o : Preorder MemoryStore) where
  pub Within-KeepsStore :
      {A : Type 0} (m : Exec (World X) A) → KeepsStore m → Within (store_order o) m
  Within-KeepsStore m k = record {
    at = λ w. subst (λ t. o.rel w.store t) (sym (k.at w)) (o.rel_refl w.store);
  }

  ask-Within : {A : Type 0} (f : ℕ → Result A) → Within (store_order {X = X} o) (ask f)
  unfolding ask
  ask-Within f = record { at = λ w. o.rel_refl w.store }

  count_metric-Within :
      (name : Str) (labels : _) → Within (store_order {X = X} o) (count_metric name labels)
  unfolding count_metric
  count_metric-Within name labels = record { at = λ w. o.rel_refl w.store }

  pub on_store-Within :
      {A : Type 0} (ctx : Context) (f : Option Error → Exec MemoryStore A)
      → ((c : Option Error) → Within o (f c))
      → Within (store_order {X = X} o) (on_store ctx f)
  unfolding on_store
  on_store-Within ctx f h = record { at = λ w. (h (ctx.err_at w.tick)).at w.store }

-- The calls that concern neither wallets nor proposals, where appending an event moves along `o`.
module _ {X : Type 0} (o : Preorder MemoryStore)
    (moves : (c : Option Error) (e : AuditEvent) (s : MemoryStore)
      → o.rel s (append_audit_event c e s).1)
    (d : Setup X) (own : HasOwnState d) where
  pub service-IsQuiet : IsQuiet (store_order o) (service d)
  service-IsQuiet = record {
    inc_within = count_metric-Within o;
    now_within = ask-Within o _;
    rand_within = λ size. ask-Within o _;
    audit_within = λ ctx e. on_store-Within o ctx _ λ c. record { at = moves c e };
    key_within = λ ctx id chain. Within-KeepsStore o _ (own.key_keeps ctx id chain);
    sign_within = λ ctx p. Within-KeepsStore o _ (own.sign_keeps ctx p);
    build_within =
        λ ctx chain a w r found. Within-KeepsStore o _ (own.build_keeps ctx chain a w r found);
    send_within = λ ctx chain a payload found.
        Within-KeepsStore o _ (own.send_keeps ctx chain a payload found);
  }

-- A request moves the state along what every call of the service moves it along.
pub handle_by-rel :
    {W : Type 0} {o : Preorder W} {s : Service W}
    → IsConfined o s
    → (ctx : Context) (r : Request) (w : W) → o.rel w (handle_by s ctx r w)
unfolding handle_by Service.get_transaction Service.list_audit_events
handle_by-rel c ctx (creates_wallet chain key) w = (create_wallet-Within c ctx chain key).at w
handle_by-rel c ctx (proposes_transaction r key) w = (propose_transaction-Within c ctx r key).at w
handle_by-rel c ctx (cosigns id signer) w = (cosign-Within c ctx id signer).at w
handle_by-rel c ctx (broadcasts id) w = (broadcast-Within c ctx id).at w
handle_by-rel c ctx (gets_transaction id) w = (c.get_transaction_within ctx id).at w
handle_by-rel c ctx (lists_audit_events f) w = (c.list_audit_events_within ctx f).at w

-- Of the calls, which the store makes one at a time.
module _ {X : Type 0} (o : Preorder MemoryStore)
    (moves : (c : Option Error) (call : Call) (s : MemoryStore) → o.rel s (apply c call s).1)
    (d : Setup X) (own : HasOwnState d) where
  method-Within :
      {A : Type 0} (ctx : Context) (call : Call) (f : Option Error → Exec MemoryStore A)
      → ((c : Option Error) (s : MemoryStore) → (apply c call s).1 ≡ (f c s).1)
      → Within (store_order {X = X} o) (on_store ctx f)
  method-Within ctx call f same =
      on_store-Within o ctx f
        λ c. record { at = λ s. subst (λ t. o.rel s t) (same c s) (moves c call s) }

  appends-rel :
      (c : Option Error) (e : AuditEvent) (s : MemoryStore) → o.rel s (append_audit_event c e s).1
  unfolding apply
  appends-rel c e s =
      subst (λ t. o.rel s t) (outcome-state (append_audit_event c e s))
        (moves c (Calls.appends_audit_event e) s)

  pub service-IsConfined : IsConfined (store_order o) (service d)
  unfolding apply
  service-IsConfined = record {
    quiet = service-IsQuiet o appends-rel d own;
    create_wallet_within =
        λ ctx w. method-Within ctx (Calls.creates_wallet w) _ (λ c s. outcome-state _);
    create_wallet_idempotently_within = λ ctx w r.
        method-Within ctx (Calls.creates_wallet_idempotently w r) _ (λ c s. outcome-state _);
    get_wallet_within =
        λ ctx id. method-Within ctx (Calls.gets_wallet id) _ (λ c s. outcome-state _);
    create_transaction_within =
        λ ctx p. method-Within ctx (Calls.creates_transaction p) _ (λ c s. outcome-state _);
    create_transaction_idempotently_within = λ ctx p r.
        method-Within ctx (Calls.creates_transaction_idempotently p r) _ (λ c s. outcome-state _);
    get_transaction_within =
        λ ctx id. method-Within ctx (Calls.gets_transaction id) _ (λ c s. outcome-state _);
    add_approval_within =
        λ ctx id a. method-Within ctx (Calls.adds_approval id a) _ (λ c s. outcome-state _);
    mark_transaction_signed_within = λ ctx id payload.
        method-Within ctx (Calls.marks_transaction_signed id payload) _ (λ c s. outcome-state _);
    update_transaction_within =
        λ ctx p. method-Within ctx (Calls.updates_transaction p) _ (λ c s. outcome-state _);
    list_audit_events_within =
        λ ctx f. method-Within ctx (Calls.lists_audit_events f) _ (λ c s. outcome-state _);
  }

  handle-rel : (ctx : Context) (r : Request) (w : World X) → o.rel w.store (handle d ctx r w).store
  handle-rel = handle_by-rel service-IsConfined

  pub serve-rel : (rs : List (Context × Request)) (w : World X) → o.rel w.store (serve d rs w).store
  unfolding serve
  serve-rel [] w = o.rel_refl w.store
  serve-rel ((ctx, r) ∷ rs) w =
      o.rel_trans w.store (handle d ctx r w).store (serve d rs (handle d ctx r w)).store
        (handle-rel ctx r w) (serve-rel rs (handle d ctx r w))
