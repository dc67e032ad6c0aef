-- ===== src/Wallet/Service/Signing.antt =====
-- internal/wallet/service.go: CoSign, Broadcast and the reads.
use mpc_custody.Prelude.{
  Bool, true, false, not, ◌&&◌, ◌||◌, none, some, List, [], ◌∷◌, leb, if◌then◌else◌,
}
use mpc_custody.Errors.{unauthorized_signer, transaction_not_signed, message}
use mpc_custody.Go.Str.{Str, str_eq, bytes}
use mpc_custody.Go.Json.{marshal_strings}
use mpc_custody.Go.Exec.{Exec, pure, raise_if, on_error, ◌>>=◌, ◌>>◌}
use mpc_custody.Wallet.Types.{
  Time, Signature, TransactionProposal, broadcasted, is_proposed, is_signed, approvals_count,
  AuditEvent, transaction_approved, transaction_signed, transaction_broadcast, AuditFilter,
}
use mpc_custody.Wallet.Interfaces.{Context}
use mpc_custody.Wallet.Policy.{signer_allowed}
use mpc_custody.Wallet.Service.Core.{
  Service, chain_label, transaction_event, append_audit, record_failure, adapter_for,
}

-- The record that Broadcast stores once the adapter has accepted the transaction.
abbrev pub broadcasted_proposal : Str → Time → TransactionProposal → TransactionProposal
broadcasted_proposal hash now p = record p {
  status = broadcasted;
  broadcast_hash = hash;
  updated_at = now;
}

module _ {W : Type 0} (s : Service W) where
  -- What follows MarkTransactionSigned, by its second result.
  unfoldable pub finish_signing :
      Context → Signature → TransactionProposal × Bool → Exec W TransactionProposal
  finish_signing ctx signature (p, false) = pure p
  finish_signing ctx signature (p, true) = do
    s.inc (bytes "custody_transactions_signed_total") (chain_label p.chain)
    append_audit s ctx (
        transaction_event transaction_signed [] p
          (some (marshal_strings ((bytes "signature_id", signature.signature_id) ∷ []))))
    pure p

  unfoldable pub sign_at_quorum : Context → TransactionProposal → Exec W TransactionProposal
  unfolding record_failure finish_signing
  sign_at_quorum ctx p = do
    signature ← on_error (s.signer.sign_transaction ctx p) (record_failure s ctx p (bytes "sign"))
    marked ← s.store.mark_transaction_signed ctx p.id signature.signed_transaction
    finish_signing ctx signature marked

  unfoldable pub cosign : Context → Str → Str → Exec W TransactionProposal
  unfolding append_audit sign_at_quorum
  cosign ctx id signer = do
    raise_if (str_eq signer []) (message (bytes "signer_id is required"))
    raise_if (not (signer_allowed s.policy signer)) (unauthorized_signer signer)
    now ← s.now
    p ← s.store.add_approval ctx id (record { signer_id = signer; created_at = now })
    s.inc (bytes "custody_transaction_approvals_total") (chain_label p.chain)
    append_audit s ctx (transaction_event transaction_approved signer p none)
    if is_proposed p.status && leb 2 (approvals_count p) then sign_at_quorum ctx p else pure p

  unfoldable pub broadcast : Context → Str → Exec W TransactionProposal
  unfolding adapter_for record_failure append_audit
  broadcast ctx id = do
    p ← s.store.get_transaction ctx id
    raise_if (not (is_signed p.status) || str_eq p.signed_transaction []) transaction_not_signed
    adapter ← adapter_for s p.chain
    hash ←
        on_error (adapter.broadcast ctx p.signed_transaction)
          (record_failure s ctx p (bytes "broadcast"))
    now ← s.now
    let sent : TransactionProposal = broadcasted_proposal hash now p
    s.store.update_transaction ctx sent
    append_audit s ctx (
        transaction_event transaction_broadcast [] sent
          (some (marshal_strings ((bytes "broadcast_hash", hash) ∷ []))))
    s.inc (bytes "custody_transactions_broadcast_total") (chain_label sent.chain)
    pure sent

  unfoldable pub get_transaction : Context → Str → Exec W TransactionProposal
  get_transaction ctx id = s.store.get_transaction ctx id

  unfoldable pub list_audit_events : Context → AuditFilter → Exec W (List AuditEvent)
  list_audit_events ctx filter = s.store.list_audit_events ctx filter
