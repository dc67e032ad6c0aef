-- ===== src/Wallet/Interfaces.antt =====
-- The interfaces of internal/wallet: what the service asks of a store, of a chain adapter and of a
-- signing backend, over whatever state `W` they share. internal/observability/tracing.go gives the
-- trace that a request's context carries.
use mpc_custody.Prelude.{ℕ, Bool, Option, none, some, List, []}
use mpc_custody.Errors.{Error}
use mpc_custody.Go.Str.{Str}
use mpc_custody.Go.Exec.{Exec}
use mpc_custody.Wallet.Types.{
  Chain, Wallet, WalletMaterial, Signature, TransactionRequest, RawTransaction, Approval,
  TransactionProposal, AuditEvent, AuditFilter, IdempotencyRecord,
}

pub record Trace : Type 0 where
  pub trace_id : Str
  pub span_id : Str

-- context.Context: what `ctx.Err()` is at each instant (`none` while it is not done), and the trace
-- that the middleware attached.
pub record Context : Type 0 where
  pub err_at : ℕ → Option Error
  pub trace : Option Trace

pub trace_from_context : Context → Trace
trace_from_context ctx = elim ctx.trace [
  | none ↦ record { trace_id = []; span_id = [] }
  | some trace ↦ trace
]

pub record Store (W : Type 0) : Type 0 where
  pub create_wallet : Context → Wallet → Exec W Unit
  pub create_wallet_idempotently : Context → Wallet → IdempotencyRecord → Exec W (Wallet × Bool)
  pub get_wallet : Context → Str → Exec W Wallet
  pub create_transaction : Context → TransactionProposal → Exec W Unit
  pub create_transaction_idempotently :
      Context → TransactionProposal → IdempotencyRecord → Exec W (TransactionProposal × Bool)
  pub get_transaction : Context → Str → Exec W TransactionProposal
  pub add_approval : Context → Str → Approval → Exec W TransactionProposal
  pub mark_transaction_signed : Context → Str → Str → Exec W (TransactionProposal × Bool)
  pub update_transaction : Context → TransactionProposal → Exec W Unit
  pub append_audit_event : Context → AuditEvent → Exec W Unit
  pub list_audit_events : Context → AuditFilter → Exec W (List AuditEvent)

pub record ChainAdapter (W : Type 0) : Type 0 where
  pub chain : Chain
  pub build_transaction : Context → Wallet → TransactionRequest → Exec W RawTransaction
  pub broadcast : Context → Str → Exec W Str

pub record SigningBackend (W : Type 0) : Type 0 where
  pub create_wallet : Context → Str → Chain → Exec W WalletMaterial
  pub sign_transaction : Context → TransactionProposal → Exec W Signature
