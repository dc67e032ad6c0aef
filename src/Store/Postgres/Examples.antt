-- ===== src/Store/Postgres/Examples.antt =====
-- Runs of internal/store/postgres.go over a database in memory.
use mpc_custody.Prelude.{◌≡◌, refl, sym, inl, inr, Bool-cases, none, some, [], ◌∷◌, arith}
use mpc_custody.Go.Str.{Str, str_eq, str_eq_iff}
use mpc_custody.Go.Int.{pos}
use mpc_custody.Go.Json.{null}
use mpc_custody.Go.Dict.{lookup}
use mpc_custody.Go.Exec.Triple.{Post}
use mpc_custody.Wallet.Types.{Wallet, Approval, TransactionProposal, proposed}
use mpc_custody.Wallet.Interfaces.{Context}
use mpc_custody.Store.Memory
use mpc_custody.Store.Memory.{MemoryStore}
use mpc_custody.Store.Postgres.Tables.{Tables, lookup_key}
use mpc_custody.Store.Postgres.Abstract.{Represents, Holds}
use mpc_custody.Store.Postgres.Session.{Ends}
use mpc_custody.Store.Postgres.Locked.{Failed, Answered}
use mpc_custody.Store.Postgres.Approvals.{add_approval-Refined}
use mpc_custody.Store.Postgres.Marking.{Unmarked, IsMarked, mark_transaction_signed-Refined}
use mpc_custody.Store.Postgres.Updates.{update_transaction-Refined}
use mpc_custody.Store.Postgres.Creations.{create_wallet-Refined}
use mpc_custody.Store.Postgres.Wallets.{create_wallet}
use mpc_custody.Store.Postgres.Proposals.{update_transaction}
use mpc_custody.Store.Postgres.Sample.{Session, sample, sample_view, sample-IsPostgres}
use mpc_custody.Store.Postgres.Quorum.{add_approval, mark_transaction_signed}

abbrev live : Context
live = record { err_at = λ n. none; trace = none }

abbrev a_proposal : TransactionProposal
a_proposal = record {
  id = 116 ∷ [];
  wallet_id = 119 ∷ [];
  chain = 99 ∷ [];
  status = proposed;
  request = record {
    wallet_id = 119 ∷ [];
    to = 116 ∷ [];
    amount = 53 ∷ [];
    fee_rate_sats = pos 1;
    gas_limit = 0;
    max_fee_per_gas = [];
    call_data = [];
    utxos = [];
    metadata = none;
  };
  raw_transaction = record { chain = 99 ∷ []; payload = null };
  approvals = [];
  signed_transaction = [];
  broadcast_hash = [];
  error = [];
  trace = [];
  created_at = 1;
  updated_at = 1;
}

abbrev an_approval : Approval
an_approval = record { signer_id = 97 ∷ []; created_at = 5 }

abbrev tables : Tables TransactionProposal
tables = record {
  wallets = [];
  proposals =
      (
        116 ∷ [],
        record {
          wallet_id = 119 ∷ [];
          chain = 99 ∷ [];
          status = proposed;
          proposal = a_proposal;
          created_at = 1;
          updated_at = 1;
        },
      )
      ∷ [];
  keys = [];
  events = [];
}

abbrev store : MemoryStore
store = record {
  wallets = [];
  transactions = (116 ∷ [], a_proposal) ∷ [];
  audit_events = [];
  idempotency = [];
}

one_of : (id : Str) → Holds sample (lookup id tables.proposals) (lookup id store.transactions)
unfolding lookup
one_of id = elim (Bool-cases (str_eq (116 ∷ []) id)) [
  | inl same ↦ rw (same) refl
  | inr other ↦ rw (other) tt
]

one_key : (id : Str) (p : TransactionProposal) → lookup id store.transactions ≡ some p → p.id ≡ id
unfolding lookup
one_key id p found = ground (arith, str_eq_iff (116 ∷ []) id)

tables-Represents : Represents sample tables store
unfolding lookup_key lookup
tables-Represents = record {
  wallets_same = refl;
  proposals_same = one_of;
  keyed = one_key;
  keys_same = λ scope key n. refl;
}

abbrev session : Session
session = (tables, none)

-- An approval of the one proposal there is.
add_approval-Refined_example :
    Post
      (Ends sample_view
        (Failed sample_view sample (Memory.add_approval none (116 ∷ []) an_approval) store))
      (λ q.
        Ends sample_view
          (Answered sample_view sample (Memory.add_approval none (116 ∷ []) an_approval) store q))
      (add_approval sample live (116 ∷ []) an_approval session)
add_approval-Refined_example =
    (add_approval-Refined sample_view sample sample-IsPostgres live (116 ∷ []) an_approval tables
        store tables-Represents (λ p found doc written. sym written)).at
      session (refl, refl)

mark_transaction_signed-Refined_example :
    Post
      (Ends sample_view (Unmarked sample_view sample (116 ∷ []) (7 ∷ []) store))
      (λ r. Ends sample_view (IsMarked sample_view sample (116 ∷ []) (7 ∷ []) store r))
      (mark_transaction_signed sample live (116 ∷ []) (7 ∷ []) session)
mark_transaction_signed-Refined_example =
    (mark_transaction_signed-Refined sample_view sample sample-IsPostgres live (116 ∷ []) (7 ∷ [])
        tables store tables-Represents (λ p now found doc written. sym written)).at
      session (refl, refl)

abbrev renamed : TransactionProposal
renamed = record a_proposal { error = 120 ∷ [] }

update_transaction-Refined_example :
    Post
      (Ends sample_view (Failed sample_view sample (Memory.update_transaction none renamed) store))
      (λ a.
        Ends sample_view
          (Answered sample_view sample (Memory.update_transaction none renamed) store a))
      (update_transaction sample live renamed session)
update_transaction-Refined_example =
    (update_transaction-Refined sample_view sample sample-IsPostgres live renamed tables store
        tables-Represents (λ doc written. sym written)).at
      session (refl, refl)

abbrev a_wallet : Wallet
a_wallet = record { id = 119 ∷ []; chain = 99 ∷ []; address = []; public_key = []; created_at = 0 }

create_wallet-Refined_example :
    Post
      (Ends sample_view (Failed sample_view sample (Memory.create_wallet none a_wallet) store))
      (λ a.
        Ends sample_view (Answered sample_view sample (Memory.create_wallet none a_wallet) store a))
      (create_wallet sample live a_wallet session)
create_wallet-Refined_example =
    (create_wallet-Refined sample_view sample sample-IsPostgres live a_wallet tables store
        tables-Represents refl).at
      session (refl, refl)
