-- ===== src/Store/Postgres/Tables.antt =====
-- The tables of internal/store/migrations, and what the statements of internal/store/postgres.go do to
-- them and find in them.
use mpc_custody.Prelude.{
  ℕ, Bool, true, false, not, ◌&&◌, ◌||◌, Option, none, some, List, [], ◌∷◌, ◌++◌, if◌then◌else◌,
}
use mpc_custody.Go.Str.{Str, str_eq}
use mpc_custody.Go.Dict.{Dict, lookup, insert, contains}
use mpc_custody.Wallet.Types.{Time, Chain, Wallet, TransactionStatus, AuditEvent, IdempotencyRecord}
use mpc_custody.Store.Postgres.Sql.{
  Columns, Statement, insert_wallet, insert_transaction, update_transaction_row, update_approvals,
  insert_audit_event, insert_idempotency, migrate,
}

pub record Row (Doc : Type 0) : Type 0 where
  pub wallet_id : Str
  pub chain : Chain
  pub status : TransactionStatus
  pub proposal : Doc
  pub created_at : Time
  pub updated_at : Time

-- wallets and transaction_proposals by their primary key, and the rows of the other two tables.
pub record Tables (Doc : Type 0) : Type 0 where
  pub wallets : Dict Wallet
  pub proposals : Dict (Row Doc)
  pub keys : List IdempotencyRecord
  pub events : List AuditEvent

unfoldable pub lookup_key : Str → Str → List IdempotencyRecord → Option IdempotencyRecord
lookup_key scope key [] = none
lookup_key scope key (r ∷ rs) =
    if str_eq r.scope scope && str_eq r.key key then some r else lookup_key scope key rs

unfoldable pub has_event : Str → List AuditEvent → Bool
has_event id [] = false
has_event id (e ∷ es) = str_eq e.id id || has_event id es

abbrev pub is_some : {A : Type 0} → Option A → Bool
is_some none = false
is_some (some _) = true

module _ {Doc : Type 0} where
  abbrev pub no_tables : Tables Doc
  no_tables = record { wallets = []; proposals = []; keys = []; events = [] }

  -- PRIMARY KEY and REFERENCES: whether the tables take a row.
  abbrev pub accepts : Statement Doc → Tables Doc → Bool
  accepts (insert_wallet w) t = not (contains w.id t.wallets)
  accepts (insert_transaction id wallet_id _ _ _ _ _) t =
      not (contains id t.proposals) && contains wallet_id t.wallets
  accepts (insert_idempotency r) t = not (is_some (lookup_key r.scope r.key t.keys))
  accepts (insert_audit_event e) t = not (has_event e.id t.events)
  accepts _ t = true

  -- The row of an UPDATE, in which only the columns of its SET change.
  abbrev pub update_row : Str → (Row Doc → Row Doc) → Tables Doc → Tables Doc
  update_row id f t = elim (lookup id t.proposals) [
    | none ↦ t
    | some row ↦ record t { proposals = insert id (f row) t.proposals }
  ]

  abbrev pub perform : Columns Doc → Statement Doc → Tables Doc → Tables Doc
  perform c (insert_wallet w) t = record t {
    wallets = insert w.id (record w { created_at = c.kept_time w.created_at }) t.wallets;
  }
  perform c (insert_transaction id wallet_id chain status doc created updated) t = record t {
    proposals =
        insert id
          (record {
            wallet_id = wallet_id;
            chain = chain;
            status = status;
            proposal = c.kept_doc doc;
            created_at = c.kept_time created;
            updated_at = c.kept_time updated;
          })
          t.proposals;
  }
  perform c (update_transaction_row id status doc updated) t =
      update_row id
        (λ row. record row {
          status = status;
          proposal = c.kept_doc doc;
          updated_at = c.kept_time updated;
        })
        t
  perform c (update_approvals id doc updated) t =
      update_row id
        (λ row. record row { proposal = c.kept_doc doc; updated_at = c.kept_time updated }) t
  perform c (insert_audit_event e) t = record t {
    events =
        t.events
        ++ record e { metadata = c.kept_metadata e.metadata; created_at = c.kept_time e.created_at }
          ∷ [];
  }
  perform c (insert_idempotency r) t = record t {
    keys = t.keys ++ record r { created_at = c.kept_time r.created_at } ∷ [];
  }
  perform c (migrate _) t = t

  abbrev pub rows_changed : Statement Doc → Tables Doc → ℕ
  rows_changed (update_transaction_row id _ _ _) t = if contains id t.proposals then 1 else 0
  rows_changed (update_approvals id _ _) t = if contains id t.proposals then 1 else 0
  rows_changed (migrate _) t = 0
  rows_changed _ t = 1

  abbrev pub proposal_of : Option (Row Doc) → Option Doc
  proposal_of none = none
  proposal_of (some row) = some row.proposal
