-- ===== src/World.antt =====
-- The service over the in-memory store, as cmd/custody-api/main.go wires it when DATABASE_URL is
-- empty: the state that all parts share, and the outside world that they ask for the time, for
-- random bytes and whether a request's context is done.
pub mod Order
pub mod Trail
pub mod Quorum
pub mod Hoare
mod Invariant
mod Steps
mod Safety
mod Keeping
pub mod Soundness
pub mod Lifecycle
pub mod Progress
mod Once
pub mod Calm
mod Still
pub mod Signed
pub mod Liveness
mod Delivery
mod Examples
mod LifecycleExamples
mod OverlapExamples
mod Stranded
pub mod Requests
pub mod Among
pub mod Grows
mod Rules
pub mod Activity
pub mod Overlap
use mpc_custody.Prelude.{ℕ, ◌+◌, Option, List}
use mpc_custody.Errors.{Error}
use mpc_custody.Go.Str.{Str}
use mpc_custody.Go.Dict.{Dict}
use mpc_custody.Go.Exec.{Result, ok, Exec}
use mpc_custody.Observability.Metrics.{Metrics}
use mpc_custody.Observability.Metrics
use mpc_custody.Wallet.Types.{Time}
use mpc_custody.Wallet.Interfaces.{Context, Store, ChainAdapter, SigningBackend}
use mpc_custody.Wallet.Policy.{Policy}
use mpc_custody.Wallet.Service.{Service, new_chain_registry}
use mpc_custody.Store.Memory.{MemoryStore}
use mpc_custody.Store.Memory

-- `external` is the state of the adapters and the backend, and `tick` counts the questions that the
-- outside world has answered.
pub record World (X : Type 0) : Type 0 where
  pub store : MemoryStore
  pub metrics : Metrics
  pub external : X
  pub tick : ℕ

-- The answer to the question of each number; nothing is assumed of it.
pub record Outside : Type 0 where
  pub now_at : ℕ → Time
  pub random_at : ℕ → ℕ → Result Str

module _ {X : Type 0} where
  -- A method of the store, which first looks whether its context is done.
  unfoldable pub on_store :
      {A : Type 0} → Context → (Option Error → Exec MemoryStore A) → Exec (World X) A
  on_store ctx f w =
      let (r, store) = f (ctx.err_at w.tick) w.store in
      (r, record w { store = store; tick = w.tick + 1 })

  unfoldable pub ask : {A : Type 0} → (ℕ → Result A) → Exec (World X) A
  ask answer w = (answer w.tick, record w { tick = w.tick + 1 })

  unfoldable pub count_metric : Str → Dict Str → Exec (World X) (Unit {0})
  count_metric name labels w = (ok tt, record w { metrics = Metrics.inc name labels w.metrics })

  abbrev pub memory_store : Store (World X)
  memory_store = record {
    create_wallet = λ ctx w. on_store ctx (λ ctx_err. Memory.create_wallet ctx_err w);
    create_wallet_idempotently =
        λ ctx w r. on_store ctx (λ ctx_err. Memory.create_wallet_idempotently ctx_err w r);
    get_wallet = λ ctx id. on_store ctx (λ ctx_err. Memory.get_wallet ctx_err id);
    create_transaction = λ ctx p. on_store ctx (λ ctx_err. Memory.create_transaction ctx_err p);
    create_transaction_idempotently =
        λ ctx p r. on_store ctx (λ ctx_err. Memory.create_transaction_idempotently ctx_err p r);
    get_transaction = λ ctx id. on_store ctx (λ ctx_err. Memory.get_transaction ctx_err id);
    add_approval = λ ctx id a. on_store ctx (λ ctx_err. Memory.add_approval ctx_err id a);
    mark_transaction_signed = λ ctx id payload.
        on_store ctx (λ ctx_err. Memory.mark_transaction_signed ctx_err id payload);
    update_transaction = λ ctx p. on_store ctx (λ ctx_err. Memory.update_transaction ctx_err p);
    append_audit_event =
        λ ctx event. on_store ctx (λ ctx_err. Memory.append_audit_event ctx_err event);
    list_audit_events =
        λ ctx filter. on_store ctx (λ ctx_err. Memory.list_audit_events ctx_err filter);
  }

-- What the operator supplies: the adapters, the backend and the policy.
pub record Setup (X : Type 0) : Type 0 where
  pub adapters : List (ChainAdapter (World X))
  pub signer : SigningBackend (World X)
  pub policy : Policy
  pub outside : Outside

abbrev pub service : {X : Type 0} → Setup X → Service (World X)
service d = record {
  store = memory_store;
  chains = new_chain_registry d.adapters;
  signer = d.signer;
  inc = count_metric;
  policy = d.policy;
  now = ask (λ n. ok (d.outside.now_at n));
  rand_read = λ size. ask (λ n. d.outside.random_at n size);
}
