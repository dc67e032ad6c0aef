-- ===== src/Store/Postgres/Proposals.antt =====
-- How internal/store/postgres.go creates, reads and updates transaction proposals.
use mpc_custody.Prelude.{Bool, true, false, none, some, [], ◌==◌}
use mpc_custody.Errors.{transaction_not_found, duplicate_transaction}
use mpc_custody.Go.Str.{Str}
use mpc_custody.Go.Int.{pos}
use mpc_custody.Go.Json.{null}
use mpc_custody.Go.Exec.{err, Exec, pure, lift, raise_if, map_error, ◌>>=◌, ◌>>◌}
use mpc_custody.Wallet.Types.{TransactionProposal, unset, IdempotencyRecord}
use mpc_custody.Wallet.Interfaces.{Context}
use mpc_custody.Store.Postgres.Sql.{
  Statement, insert_transaction, update_transaction_row, insert_idempotency, Scope, pool, tx,
  Database,
}
use mpc_custody.Store.Postgres.Core.{unique_as, unless_unique, with_tx}

abbrev pub zero_proposal : TransactionProposal
zero_proposal = record {
  id = [];
  wallet_id = [];
  chain = [];
  status = unset;
  request = record {
    wallet_id = [];
    to = [];
    amount = [];
    fee_rate_sats = pos 0;
    gas_limit = 0;
    max_fee_per_gas = [];
    call_data = [];
    utxos = [];
    metadata = none;
  };
  raw_transaction = record { chain = []; payload = null };
  approvals = [];
  signed_transaction = [];
  broadcast_hash = [];
  error = [];
  trace = [];
  created_at = 0;
  updated_at = 0;
}

module _ {D Doc : Type 0} (db : Database D Doc) where
  -- GetTransaction and getTransactionTx
  unfoldable pub get_transaction_in : Scope → Context → Bool → Str → Exec D TransactionProposal
  get_transaction_in scope ctx lock id = do
    row ← db.select_proposal scope ctx lock id
    lift (elim row [ none ↦ err transaction_not_found | some doc ↦ db.unmarshal doc ])

  unfoldable pub get_transaction : Context → Str → Exec D TransactionProposal
  unfolding get_transaction_in
  get_transaction ctx id = get_transaction_in pool ctx false id

  -- transactionForIdempotency: likewise the zero proposal.
  unfoldable pub transaction_for_idempotency :
      Context → Str → Str → Exec D (TransactionProposal × Bool)
  unfolding get_transaction
  transaction_for_idempotency ctx scope key = do
    found ← db.select_idempotency pool ctx scope key
    elim found [
      | none ↦ pure (zero_proposal, false)
      | some r ↦ (do p ← get_transaction ctx r.resource_id; pure (p, false))
    ]

  -- The statement that inserts a proposal.
  abbrev pub insert_proposal : TransactionProposal → Doc → Statement Doc
  insert_proposal p doc =
      insert_transaction p.id p.wallet_id p.chain p.status doc p.created_at p.updated_at

  unfoldable pub create_transaction : Context → TransactionProposal → Exec D (Unit {0})
  unfolding unique_as
  create_transaction ctx p = do
    doc ← lift (db.marshal p)
    map_error (unique_as duplicate_transaction) (db.exec pool ctx (insert_proposal p doc))
    pure tt

  unfoldable pub create_transaction_idempotently :
      Context → TransactionProposal → IdempotencyRecord → Exec D (TransactionProposal × Bool)
  unfolding with_tx get_transaction_in unique_as unless_unique transaction_for_idempotency
  create_transaction_idempotently ctx p r = with_tx db ctx (do
    found ← db.select_idempotency tx ctx r.scope r.key
    elim found [
      | some existing ↦ (do
        stored ← get_transaction_in tx ctx false existing.resource_id
        pure (stored, false))
      | none ↦ (do
        doc ← lift (db.marshal p)
        map_error (unique_as duplicate_transaction) (db.exec tx ctx (insert_proposal p doc))
        unless_unique (db.exec tx ctx (insert_idempotency r))
            (do db.rollback ctx; transaction_for_idempotency ctx r.scope r.key)
            (do db.commit ctx; pure (p, true)))
    ])

  unfoldable pub update_transaction : Context → TransactionProposal → Exec D (Unit {0})
  update_transaction ctx p = do
    doc ← lift (db.marshal p)
    changed ← db.exec pool ctx (update_transaction_row p.id p.status doc p.updated_at)
    raise_if (changed == 0) transaction_not_found
