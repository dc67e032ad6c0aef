-- ===== src/Errors.antt =====
-- The errors of the wallet and store packages (internal/wallet/service.go and
-- internal/store/memory.go), and what `err.Error()` prints.
use mpc_custody.Prelude.{◌++◌}
use mpc_custody.Go.Str.{Str, bytes}

-- `message` is any other error, by its text: errors.New, and those of libraries; `pg_error` is a
-- pgconn.PgError, by its code and its text.
pub data Error : Type 0 where
  unsupported_chain : Str → Error
  duplicate_approval transaction_not_signed transaction_not_proposed : Error
  unauthorized_signer : Str → Error
  policy_violation : Str → Error
  wallet_not_found transaction_not_found : Error
  duplicate_wallet duplicate_transaction duplicate_idempotency : Error
  message : Str → Error
  status_update_failed : Str → Error → Error
  pg_error : Str → Str → Error
  migration_failed : Str → Error → Error

unfoldable pub error_text : Error → Str
error_text (unsupported_chain chain) = bytes "unsupported chain: " ++ chain
error_text duplicate_approval = bytes "signer already approved proposal"
error_text transaction_not_signed = bytes "transaction is not signed"
error_text transaction_not_proposed = bytes "transaction is not accepting approvals"
error_text (unauthorized_signer signer) = bytes "signer is not authorized: " ++ signer
error_text (policy_violation reason) = bytes "policy violation: " ++ reason
error_text wallet_not_found = bytes "wallet not found"
error_text transaction_not_found = bytes "transaction not found"
error_text duplicate_wallet = bytes "wallet already exists"
error_text duplicate_transaction = bytes "transaction already exists"
error_text duplicate_idempotency = bytes "idempotency key already exists"
error_text (message text) = text
error_text (status_update_failed phase e) =
    phase ++ (bytes " failed and status update failed: " ++ error_text e)
error_text (pg_error code text) = text
error_text (migration_failed name e) =
    bytes "run migration " ++ (name ++ (bytes ": " ++ error_text e))
