-- ===== src/Store/Postgres/Sql.antt =====
-- What internal/store/postgres.go asks of PostgreSQL, by pgx: its statements and queries by name, with
-- their parameters, on the pool or in the open transaction.
use mpc_custody.Prelude.{ℕ, Bool, Option, List}
use mpc_custody.Go.Str.{Str}
use mpc_custody.Go.Json.{Json}
use mpc_custody.Go.Exec.{Result, Exec}
use mpc_custody.Wallet.Types.{
  Time, Chain, Wallet, TransactionStatus, TransactionProposal, AuditEvent, IdempotencyRecord,
}
use mpc_custody.Wallet.Interfaces.{Context}

-- `Doc` is a JSON document, as the column `proposal` holds it.
pub data Statement (Doc : Type 0) : Type 0 where
  insert_wallet : Wallet → Statement Doc
  insert_transaction : Str → Str → Chain → TransactionStatus → Doc → Time → Time → Statement Doc
  update_transaction_row : Str → TransactionStatus → Doc → Time → Statement Doc
  update_approvals : Str → Doc → Time → Statement Doc
  insert_audit_event : AuditEvent → Statement Doc
  insert_idempotency : IdempotencyRecord → Statement Doc
  migrate : Str → Statement Doc

pub data Scope : Type 0 where
  pool tx : Scope

-- What a column keeps of what is written to it: an instant in TIMESTAMPTZ, in which PostgreSQL has
-- microseconds, a proposal in JSONB and the metadata of an event in JSONB, which keep neither the order
-- of keys nor the spaces of a text.
pub record Columns (Doc : Type 0) : Type 0 where
  pub kept_time : Time → Time
  pub kept_doc : Doc → Doc
  pub kept_metadata : Option Json → Option Json

-- A query of one row gives `none` for pgx.ErrNoRows; `select_proposal` may lock its row. `exec` gives
-- the number of rows that a statement changed.
pub record Database (D Doc : Type 0) : Type 0 where
  pub columns : Columns Doc
  pub connect : Str → Exec D Unit
  pub close : Exec D Unit
  pub begin : Context → Exec D Unit
  pub commit : Context → Exec D Unit
  pub rollback : Context → Exec D Unit
  pub exec : Scope → Context → Statement Doc → Exec D ℕ
  pub select_wallet : Scope → Context → Str → Exec D (Option Wallet)
  pub select_proposal : Scope → Context → Bool → Str → Exec D (Option Doc)
  pub select_idempotency : Scope → Context → Str → Str → Exec D (Option IdempotencyRecord)
  pub select_audit_events : Context → Str → ℕ → Exec D (List AuditEvent)
  pub now : Exec D Time
  pub marshal : TransactionProposal → Result Doc
  pub unmarshal : Doc → Result TransactionProposal
