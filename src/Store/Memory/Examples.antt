-- ===== src/Store/Memory/Examples.antt =====
-- Runs of the in-memory store.
use mpc_custody.Prelude.{
  inr, arith, ◌≡◌, refl, true, false, Option, none, some, List, [], ◌∷◌, take, arith,
}
use mpc_custody.Errors.{Error, message, duplicate_wallet}
use mpc_custody.Go.Str.{Str, str_eq}
use mpc_custody.Go.Int.{pos, negsuc}
use mpc_custody.Go.Json.{null}
use mpc_custody.Go.Dict.{lookup, insert}
use mpc_custody.Go.Exec.{ok}
use mpc_custody.Wallet.Types.{
  Wallet, Approval, TransactionRequest, TransactionProposal, proposed, IdempotencyRecord,
  AuditEvent, wallet_created,
}
use mpc_custody.Store.Memory.{
  MemoryStore, create_wallet_idempotently, create_transaction_idempotently, add_approval, approve,
  mark_transaction_signed, sign, list_audit_events,
}
use mpc_custody.Store.Memory.Approvals.{
  Recorded, Marked, add_approval-Recorded, mark_transaction_signed-Marked,
  mark_transaction_signed_once,
}
use mpc_custody.Store.Memory.Audit.{at_end, picks, as_asked, list_audit_events_lem}
use mpc_custody.Store.Memory.Calls.{Call, run, apply, apply_atomic}
use mpc_custody.Store.Memory.Keys.{idempotency_key_injective}
use mpc_custody.Store.Memory.Replay.{
  create_wallet_idempotently_replay, create_transaction_idempotently_replay,
}

abbrev a_request : TransactionRequest
a_request = record {
  wallet_id = 119 ∷ [];
  to = 116 ∷ [];
  amount = 53 ∷ [];
  fee_rate_sats = pos 1;
  gas_limit = 0;
  max_fee_per_gas = [];
  call_data = [];
  utxos = [];
  metadata = none;
}

abbrev a_proposal : TransactionProposal
a_proposal = record {
  id = 116 ∷ [];
  wallet_id = 119 ∷ [];
  chain = 99 ∷ [];
  status = proposed;
  request = a_request;
  raw_transaction = record { chain = 99 ∷ []; payload = null };
  approvals = [];
  signed_transaction = [];
  broadcast_hash = [];
  error = [];
  trace = [];
  created_at = 1;
  updated_at = 1;
}

abbrev an_approval : Approval
an_approval = record { signer_id = 97 ∷ []; created_at = 5 }

abbrev later_approval : Approval
later_approval = record { signer_id = 97 ∷ []; created_at = 9 }

abbrev one_proposal : MemoryStore
one_proposal = record {
  wallets = [];
  transactions = (116 ∷ [], a_proposal) ∷ [];
  audit_events = [];
  idempotency = [];
}

abbrev with_proposal : TransactionProposal → MemoryStore
with_proposal p = record one_proposal { transactions = (116 ∷ [], p) ∷ [] }

add_approval-Recorded_example :
    (old : TransactionProposal) × Recorded
      (116 ∷ [])
      an_approval
      old
      (approve an_approval a_proposal)
      one_proposal
      (with_proposal (approve an_approval a_proposal))
unfolding add_approval lookup insert str_eq
add_approval-Recorded_example =
    add_approval-Recorded none (116 ∷ []) an_approval (approve an_approval a_proposal) one_proposal
      (with_proposal (approve an_approval a_proposal)) refl

mark_transaction_signed-Marked_example :
    (old : TransactionProposal) × Marked
      (116 ∷ [])
      (1 ∷ [])
      old
      (sign (1 ∷ []) a_proposal)
      true
      one_proposal
      (with_proposal (sign (1 ∷ []) a_proposal))
unfolding mark_transaction_signed lookup insert str_eq
mark_transaction_signed-Marked_example =
    mark_transaction_signed-Marked none (116 ∷ []) (1 ∷ []) (sign (1 ∷ []) a_proposal) true
      one_proposal (with_proposal (sign (1 ∷ []) a_proposal)) refl

mark_transaction_signed_once_example :
    mark_transaction_signed none (116 ∷ []) (2 ∷ []) (with_proposal (sign (1 ∷ []) a_proposal))
    ≡ (ok (sign (1 ∷ []) a_proposal, false), with_proposal (sign (1 ∷ []) a_proposal))
unfolding mark_transaction_signed lookup insert str_eq
mark_transaction_signed_once_example =
    mark_transaction_signed_once none (116 ∷ []) (1 ∷ []) (2 ∷ []) (sign (1 ∷ []) a_proposal) true
      one_proposal (with_proposal (sign (1 ∷ []) a_proposal)) refl

abbrev a_wallet : Wallet
a_wallet = record { id = 119 ∷ []; chain = 99 ∷ []; address = []; public_key = []; created_at = 0 }

abbrev other_wallet : Wallet
other_wallet = record a_wallet { id = 120 ∷ [] }

abbrev a_record : IdempotencyRecord
a_record = record {
  scope = 99 ∷ [];
  key = 107 ∷ [];
  resource_type = [];
  resource_id = 119 ∷ [];
  created_at = 0;
}

abbrev empty : MemoryStore
empty = record { wallets = []; transactions = []; audit_events = []; idempotency = [] }

abbrev with_wallet : MemoryStore
with_wallet = record empty {
  wallets = (119 ∷ [], a_wallet) ∷ [];
  idempotency = (99 ∷ 0 ∷ 107 ∷ [], a_record) ∷ [];
}

abbrev history : List (Option Error × Call)
history =
    (none, Call.creates_wallet other_wallet)
    ∷ (some (message []), Call.creates_wallet a_wallet)
    ∷ (none, Call.adds_approval (116 ∷ []) an_approval)
    ∷ []

apply_atomic_example : (apply none (Call.creates_wallet a_wallet) with_wallet).1 ≡ with_wallet
unfolding apply lookup str_eq
apply_atomic_example =
    apply_atomic none (Call.creates_wallet a_wallet) with_wallet duplicate_wallet refl

create_wallet_idempotently_replay_example :
    create_wallet_idempotently none other_wallet a_record (run history with_wallet)
    ≡ (ok (a_wallet, false), run history with_wallet)
unfolding create_wallet_idempotently lookup insert str_eq
create_wallet_idempotently_replay_example =
    create_wallet_idempotently_replay none a_wallet a_record empty with_wallet history other_wallet
      a_record refl refl refl refl

abbrev t_record : IdempotencyRecord
t_record = record a_record { resource_id = 116 ∷ [] }

abbrev t_store : MemoryStore
t_store = record one_proposal { idempotency = (99 ∷ 0 ∷ 107 ∷ [], t_record) ∷ [] }

create_transaction_idempotently_replay_example :
    (now : TransactionProposal) × (lookup (116 ∷ []) (run history t_store).transactions ≡ some now)
    × (create_transaction_idempotently none a_proposal t_record (run history t_store)
        ≡ (ok (now, false), run history t_store))
unfolding create_transaction_idempotently lookup insert str_eq
create_transaction_idempotently_replay_example =
    create_transaction_idempotently_replay none a_proposal t_record empty t_store history a_proposal
      t_record refl refl refl refl

idempotency_key_injective_example :
    ◌≡◌ {A = Str} (99 ∷ []) (99 ∷ []) × ◌≡◌ {A = Str} (107 ∷ []) (107 ∷ [])
idempotency_key_injective_example =
    idempotency_key_injective (99 ∷ []) (99 ∷ []) (107 ∷ []) (107 ∷ []) (omega arith) (omega arith)
      refl

abbrev an_event : AuditEvent
an_event = record {
  id = 1 ∷ [];
  event_type = wallet_created;
  actor = [];
  resource_type = [];
  resource_id = 119 ∷ [];
  chain = [];
  metadata = none;
  created_at = 3;
}

abbrev audited : MemoryStore
audited = record empty { audit_events = an_event ∷ record an_event { id = 2 ∷ [] } ∷ [] }

abbrev newer : AuditEvent
newer = record an_event { id = 2 ∷ [] }

list_audit_events_lem_example :
    list_audit_events none (record { resource_id = 119 ∷ []; limit = pos 1 }) audited
    ≡ (ok (take 1 (newer ∷ an_event ∷ [])), audited)
list_audit_events_lem_example =
    list_audit_events_lem (record { resource_id = 119 ∷ []; limit = pos 1 }) 1
      (newer ∷ an_event ∷ []) audited (as_asked (omega arith) (omega arith))
      (picks (inr refl) (picks (inr refl) at_end))

newest_first :
    list_audit_events none (record { resource_id = []; limit = negsuc 4 }) audited
    ≡ (ok (record an_event { id = 2 ∷ [] } ∷ an_event ∷ []), audited)
unfolding list_audit_events str_eq
newest_first = refl
