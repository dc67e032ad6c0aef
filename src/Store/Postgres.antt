-- ===== src/Store/Postgres.antt =====
-- internal/store/postgres.go: the store over PostgreSQL. A scan into a Go value is the row that a
-- query gives; what a function writes through its parameters is returned.
pub mod Sql
pub mod Core
pub mod Wallets
pub mod Proposals
pub mod Quorum
pub mod Tables
pub mod Laws
mod Abstract
mod Session
mod Locked
mod Approvals
mod Marking
mod Updates
mod Creations
pub mod Sample
mod Examples
use mpc_custody.Prelude.{
  ℕ, Bool, true, false, not, Option, none, some, List, [], ◌∷◌, ◌==◌, if◌then◌else◌,
}
use mpc_custody.Errors.{
  Error, wallet_not_found, transaction_not_found, duplicate_wallet, duplicate_transaction,
  duplicate_idempotency, duplicate_approval, transaction_not_proposed, pg_error, migration_failed,
}
use mpc_custody.Go.Str.{Str, str_eq, bytes}
use mpc_custody.Go.Int.{pos}
use mpc_custody.Go.Json.{null}
use mpc_custody.Go.Dict.{Dict, contains, insert}
use mpc_custody.Go.Sort.{sort_by_key}
use mpc_custody.Go.Exec.{
  Result, ok, err, Exec, pure, lift, raise_if, on_error, map_error, ◌>>=◌, ◌>>◌,
}
use mpc_custody.Wallet.Types.{
  Time, Wallet, Approval, TransactionProposal, signed, unset, is_proposed, AuditEvent, AuditFilter,
  IdempotencyRecord,
}
use mpc_custody.Wallet.Interfaces.{Context, Store}
use mpc_custody.Store.Memory.{approve, effective_limit, zero_idempotency}
use mpc_custody.Store.Postgres.Sql.{
  Statement, insert_wallet, insert_transaction, update_transaction_row, update_approvals,
  insert_audit_event, insert_idempotency, migrate, Scope, pool, tx, Database,
}
use mpc_custody.Store.Postgres.Core.{
  is_unique_violation, unique_as, deferred, by_unique, unless_unique, with_tx,
}
use mpc_custody.Store.Postgres.Wallets.{create_wallet, create_wallet_idempotently, get_wallet}
use mpc_custody.Store.Postgres.Proposals.{
  create_transaction, create_transaction_idempotently, get_transaction, update_transaction,
}
use mpc_custody.Store.Postgres.Quorum.{add_approval, mark_transaction_signed}

module _ {D Doc : Type 0} (db : Database D Doc) where
  unfoldable pub append_audit_event : Context → AuditEvent → Exec D (Unit {0})
  append_audit_event ctx event = do db.exec pool ctx (insert_audit_event event); pure tt

  unfoldable pub list_audit_events : Context → AuditFilter → Exec D (List AuditEvent)
  list_audit_events ctx filter =
      db.select_audit_events ctx filter.resource_id (effective_limit filter.limit)

  unfoldable pub save_idempotency : Context → IdempotencyRecord → Exec D (Unit {0})
  unfolding unique_as
  save_idempotency ctx r = do
    map_error (unique_as duplicate_idempotency) (db.exec pool ctx (insert_idempotency r))
    pure tt

  unfoldable pub get_idempotency : Context → Str → Str → Exec D IdempotencyRecord
  get_idempotency ctx scope key = do
    found ← db.select_idempotency pool ctx scope key
    pure (elim found [ none ↦ zero_idempotency | some r ↦ r ])

  abbrev pub postgres_store : Store D
  postgres_store = record {
    create_wallet = create_wallet db;
    create_wallet_idempotently = create_wallet_idempotently db;
    get_wallet = get_wallet db;
    create_transaction = create_transaction db;
    create_transaction_idempotently = create_transaction_idempotently db;
    get_transaction = get_transaction db;
    add_approval = add_approval db;
    mark_transaction_signed = mark_transaction_signed db;
    update_transaction = update_transaction db;
    append_audit_event = append_audit_event;
    list_audit_events = list_audit_events;
  }
