-- ===== src/Wallet/Service/Core.antt =====
-- internal/wallet/service.go: the registry of adapters, the service, its audit events and failures.
use mpc_custody.Prelude.{ℕ, Option, none, some, List, [], ◌∷◌, foldl}
use mpc_custody.Errors.{Error, unsupported_chain, status_update_failed, error_text}
use mpc_custody.Go.Str.{Str, bytes}
use mpc_custody.Go.Dict.{Dict, lookup, insert}
use mpc_custody.Go.Json.{Json, marshal_strings}
use mpc_custody.Go.Exec.{ok, err, Exec, lift, ignore, map_error, ◌>>=◌, ◌>>◌}
use mpc_custody.Ids.{new_id}
use mpc_custody.Wallet.Types.{
  Time, Chain, TransactionProposal, failed, AuditEvent, AuditEventType, wallet_created,
  transaction_proposed, transaction_approved, transaction_signed, transaction_broadcast,
  transaction_failed,
}
use mpc_custody.Wallet.Interfaces.{Context, Store, ChainAdapter, SigningBackend}
use mpc_custody.Wallet.Policy.{Policy}

abbrev pub ChainRegistry : Type 0 → Type 0
ChainRegistry W = Dict (ChainAdapter W)

unfoldable pub new_chain_registry : {W : Type 0} → List (ChainAdapter W) → ChainRegistry W
new_chain_registry = foldl (λ registry adapter. insert adapter.chain adapter registry) []

-- `inc` is the metrics registry's Inc, and `rand_read` is crypto/rand.Read, which `ids.New` reads.
pub record Service (W : Type 0) : Type 0 where
  pub store : Store W
  pub chains : ChainRegistry W
  pub signer : SigningBackend W
  pub inc : Str → Dict Str → Exec W Unit
  pub policy : Policy
  pub now : Exec W Time
  pub rand_read : ℕ → Exec W Str

abbrev pub chain_label : Chain → Dict Str
chain_label chain = (bytes "chain", chain) ∷ []

unfoldable pub event_type_text : AuditEventType → Str
event_type_text wallet_created = bytes "wallet.created"
event_type_text transaction_proposed = bytes "transaction.proposed"
event_type_text transaction_approved = bytes "transaction.approved"
event_type_text transaction_signed = bytes "transaction.signed"
event_type_text transaction_broadcast = bytes "transaction.broadcast"
event_type_text transaction_failed = bytes "transaction.failed"

-- An event as its callers write it, without an id and a time.
abbrev pub transaction_event : AuditEventType → Str → TransactionProposal → Option Json → AuditEvent
transaction_event event_type actor p metadata = record {
  id = [];
  event_type = event_type;
  actor = actor;
  resource_type = bytes "transaction";
  resource_id = p.id;
  chain = p.chain;
  metadata = metadata;
  created_at = 0;
}

abbrev pub failure_metadata : Error → Str → Option Json
failure_metadata e phase =
    some (marshal_strings ((bytes "error", error_text e) ∷ (bytes "phase", phase) ∷ []))

module _ {W : Type 0} (s : Service W) where
  unfoldable pub append_audit : Context → AuditEvent → Exec W Unit
  append_audit ctx event = do
    id ← new_id s.rand_read (bytes "aud")
    now ← s.now
    s.store.append_audit_event ctx (record event { id = id; created_at = now })
    s.inc (bytes "custody_audit_events_total")
        ((bytes "type", event_type_text event.event_type) ∷ [])

  unfoldable pub fail_transaction : Context → TransactionProposal → Error → Str → Exec W Unit
  fail_transaction ctx p cause phase = do
    now ← s.now
    let failing : TransactionProposal = record p {
      status = failed;
      error = error_text cause;
      updated_at = now;
    }
    map_error (status_update_failed phase) (s.store.update_transaction ctx failing)

  -- What CoSign and Broadcast do when the backend or the adapter fails, before they return its
  -- error. The errors of these two calls are dropped.
  unfoldable pub record_failure : Context → TransactionProposal → Str → Error → Exec W Unit
  unfolding fail_transaction append_audit
  record_failure ctx p phase cause = do
    ignore (fail_transaction ctx p cause phase)
    ignore (
        append_audit ctx (transaction_event transaction_failed [] p (failure_metadata cause phase)))

  -- `adapter, ok := s.chains.Get(chain)`
  unfoldable pub adapter_for : Chain → Exec W (ChainAdapter W)
  adapter_for chain = lift (elim (lookup chain s.chains) [
    | none ↦ err (unsupported_chain chain)
    | some adapter ↦ ok adapter
  ])
