-- ===== src/Api/Status.antt =====
-- statusFor of internal/api/server.go: the status of an answer that is an error.
use mpc_custody.Prelude.{ℕ}
use mpc_custody.Errors.{
  Error, unsupported_chain, duplicate_approval, transaction_not_signed, transaction_not_proposed,
  unauthorized_signer, policy_violation, wallet_not_found, transaction_not_found, duplicate_wallet,
  duplicate_transaction, duplicate_idempotency, message, status_update_failed, pg_error,
  migration_failed,
}

-- errors.Is looks through the error that failTransaction wraps.
unfoldable pub status_for : Error → ℕ
status_for wallet_not_found = 404
status_for transaction_not_found = 404
status_for (unauthorized_signer _) = 403
status_for duplicate_idempotency = 409
status_for (unsupported_chain _) = 400
status_for duplicate_approval = 400
status_for transaction_not_signed = 400
status_for transaction_not_proposed = 400
status_for (policy_violation _) = 400
status_for duplicate_wallet = 500
status_for duplicate_transaction = 500
status_for (message _) = 500
status_for (status_update_failed _ e) = status_for e
status_for (pg_error _ _) = 500
status_for (migration_failed _ e) = status_for e
