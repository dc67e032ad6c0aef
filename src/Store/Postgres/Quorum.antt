-- ===== src/Store/Postgres/Quorum.antt =====
-- AddApproval and MarkTransactionSigned of internal/store/postgres.go, which lock the row that they
-- change.
use mpc_custody.Prelude.{Bool, true, false, not, if◌then◌else◌}
use mpc_custody.Errors.{duplicate_approval, transaction_not_proposed}
use mpc_custody.Go.Str.{Str}
use mpc_custody.Go.Dict.{contains}
use mpc_custody.Go.Exec.{Exec, pure, lift, raise_if, ◌>>=◌, ◌>>◌}
use mpc_custody.Wallet.Types.{Time, Approval, TransactionProposal, signed, is_proposed}
use mpc_custody.Wallet.Interfaces.{Context}
use mpc_custody.Store.Memory.{approve}
use mpc_custody.Store.Postgres.Sql.{update_transaction_row, update_approvals, tx, Database}
use mpc_custody.Store.Postgres.Core.{with_tx}
use mpc_custody.Store.Postgres.Proposals.{get_transaction_in}

-- MarkTransactionSigned writes the time of the clock, not that of an approval.
abbrev pub sign_at : Str → Time → TransactionProposal → TransactionProposal
sign_at payload now p = record p { status = signed; signed_transaction = payload; updated_at = now }

module _ {D Doc : Type 0} (db : Database D Doc) where
  -- AddApproval after its row was read and locked.
  unfoldable pub approve_locked :
      Context → Approval → TransactionProposal → Exec D TransactionProposal
  approve_locked ctx a p = do
    raise_if (not (is_proposed p.status)) transaction_not_proposed
    raise_if (contains a.signer_id p.approvals) duplicate_approval
    doc ← lift (db.marshal (approve a p))
    db.exec tx ctx (update_approvals p.id doc a.created_at)
    db.commit ctx
    pure (approve a p)

  unfoldable pub add_approval : Context → Str → Approval → Exec D TransactionProposal
  unfolding with_tx get_transaction_in approve_locked
  add_approval ctx id a =
      with_tx db ctx (do p ← get_transaction_in db tx ctx true id; approve_locked ctx a p)

  unfoldable pub sign_locked :
      Context → Str → TransactionProposal → Exec D (TransactionProposal × Bool)
  sign_locked ctx payload p = do
    now ← db.now
    doc ← lift (db.marshal (sign_at payload now p))
    db.exec tx ctx (update_transaction_row p.id signed doc now)
    db.commit ctx
    pure (sign_at payload now p, true)

  unfoldable pub mark_transaction_signed : Context → Str → Str → Exec D (TransactionProposal × Bool)
  unfolding with_tx get_transaction_in sign_locked
  mark_transaction_signed ctx id payload = with_tx db ctx (do
    p ← get_transaction_in db tx ctx true id
    if not (is_proposed p.status)
        then (do db.commit ctx; pure (p, false))
        else sign_locked ctx payload p)
