-- ===== src/Store/Memory/Calls.antt =====
-- The methods of internal/store/memory.go as one type of calls. Requests run side by side, and a
-- method holds the lock for all of its body, so any interleaving of requests is a list of calls.
use mpc_custody.Prelude.{
  ◌≡◌, refl, true, Option-cases, inl, inr, Option, none, some, List, [], ◌∷◌, arith,
}
use mpc_custody.Errors.{Error}
use mpc_custody.Go.Str.{Str, str_eq_iff}
use mpc_custody.Go.Dict.{lookup, contains, lookup-insert, contains-insert}
use mpc_custody.Go.Exec.{Result, ok, err}
use mpc_custody.Wallet.Types.{
  Wallet, Approval, TransactionProposal, AuditEvent, AuditFilter, IdempotencyRecord,
}
use mpc_custody.Store.Memory.{
  MemoryStore, create_wallet, create_wallet_idempotently, get_wallet, create_transaction,
  create_transaction_idempotently, get_transaction, update_transaction, add_approval, approve,
  mark_transaction_signed, sign, append_audit_event, list_audit_events, save_idempotency,
  get_idempotency, idempotency_key,
}

pub data Call : Type 0 where
  creates_wallet : Wallet → Call
  creates_wallet_idempotently : Wallet → IdempotencyRecord → Call
  gets_wallet : Str → Call
  creates_transaction : TransactionProposal → Call
  creates_transaction_idempotently : TransactionProposal → IdempotencyRecord → Call
  gets_transaction : Str → Call
  updates_transaction : TransactionProposal → Call
  adds_approval : Str → Approval → Call
  marks_transaction_signed : Str → Str → Call
  appends_audit_event : AuditEvent → Call
  lists_audit_events : AuditFilter → Call
  saves_idempotency : IdempotencyRecord → Call
  gets_idempotency : Str → Str → Call

-- The error of a call, if any, and the store that it leaves.
abbrev pub outcome : {A : Type 0} → Result A × MemoryStore → Option Error × MemoryStore
outcome (ok a, s) = (none, s)
outcome (err e, s) = (some e, s)

pub outcome-state : {A : Type 0} (r : Result A × MemoryStore) → (outcome r).1 ≡ r.1
outcome-state (ok a, s) = refl
outcome-state (err e, s) = refl

unfoldable pub apply : Option Error → Call → MemoryStore → Option Error × MemoryStore
unfolding create_wallet create_wallet_idempotently get_wallet create_transaction
    create_transaction_idempotently get_transaction update_transaction add_approval
    mark_transaction_signed append_audit_event list_audit_events save_idempotency get_idempotency
apply c (creates_wallet w) s = outcome (create_wallet c w s)
apply c (creates_wallet_idempotently w r) s = outcome (create_wallet_idempotently c w r s)
apply c (gets_wallet id) s = outcome (get_wallet c id s)
apply c (creates_transaction p) s = outcome (create_transaction c p s)
apply c (creates_transaction_idempotently p r) s = outcome (create_transaction_idempotently c p r s)
apply c (gets_transaction id) s = outcome (get_transaction c id s)
apply c (updates_transaction p) s = outcome (update_transaction c p s)
apply c (adds_approval id a) s = outcome (add_approval c id a s)
apply c (marks_transaction_signed id payload) s = outcome (mark_transaction_signed c id payload s)
apply c (appends_audit_event e) s = outcome (append_audit_event c e s)
apply c (lists_audit_events f) s = outcome (list_audit_events c f s)
apply c (saves_idempotency r) s = outcome (save_idempotency c r s)
apply c (gets_idempotency scope key) s = outcome (get_idempotency c scope key s)

-- A history: each call with what its context said.
unfoldable pub run : List (Option Error × Call) → MemoryStore → MemoryStore
run [] s = s
run ((c, call) ∷ rest) s = run rest (apply c call s).1

-- A call that fails leaves the store as it was.
pub apply_atomic :
    (c : Option Error) (call : Call) (s : MemoryStore) (e : Error)
    → (apply c call s).0 ≡ some e
    → (apply c call s).1 ≡ s
unfolding apply
apply_atomic c (creates_wallet w) s e h = ground arith
apply_atomic c _ s e h = ground arith

-- What a call cannot undo: a key's record, a stored wallet, and that a proposal is stored.
pub apply-keeps_record :
    (c : Option Error) (call : Call) (s : MemoryStore) (key : Str) (r : IdempotencyRecord)
    → lookup key s.idempotency ≡ some r
    → lookup key (apply c call s).1.idempotency ≡ some r
unfolding apply
apply-keeps_record c (creates_wallet_idempotently w n) s key r h = ground (
  arith,
  lookup-insert (idempotency_key n.scope n.key) key n s.idempotency,
  str_eq_iff (idempotency_key n.scope n.key) key,
)
apply-keeps_record c (creates_transaction_idempotently p n) s key r h = ground (
  arith,
  lookup-insert (idempotency_key n.scope n.key) key n s.idempotency,
  str_eq_iff (idempotency_key n.scope n.key) key,
)
apply-keeps_record c (saves_idempotency n) s key r h = ground (
  arith,
  lookup-insert (idempotency_key n.scope n.key) key n s.idempotency,
  str_eq_iff (idempotency_key n.scope n.key) key,
)
apply-keeps_record c _ s key r h = ground arith

pub apply-keeps_wallet :
    (c : Option Error) (call : Call) (s : MemoryStore) (id : Str) (w : Wallet)
    → lookup id s.wallets ≡ some w
    → lookup id (apply c call s).1.wallets ≡ some w
unfolding apply
apply-keeps_wallet c (creates_wallet n) s id w h =
    ground (arith, lookup-insert n.id id n s.wallets, str_eq_iff n.id id)
apply-keeps_wallet c (creates_wallet_idempotently n r) s id w h =
    ground (arith, lookup-insert n.id id n s.wallets, str_eq_iff n.id id)
apply-keeps_wallet c _ s id w h = ground arith

pub apply-keeps_transaction :
    (c : Option Error) (call : Call) (s : MemoryStore) (id : Str)
    → contains id s.transactions ≡ true
    → contains id (apply c call s).1.transactions ≡ true
unfolding apply
apply-keeps_transaction c (creates_transaction p) s id h =
    ground (arith, contains-insert p.id id p s.transactions)
apply-keeps_transaction c (creates_transaction_idempotently p r) s id h =
    ground (arith, contains-insert p.id id p s.transactions)
apply-keeps_transaction c (updates_transaction p) s id h =
    ground (arith, contains-insert p.id id p s.transactions)
apply-keeps_transaction c (adds_approval k a) s id h =
    elim (Option-cases (lookup k s.transactions)) [
      | inl missing ↦ ground arith
      | inr (old, found) ↦ ground (arith, contains-insert k id (approve a old) s.transactions)
    ]
apply-keeps_transaction c (marks_transaction_signed k payload) s id h =
    elim (Option-cases (lookup k s.transactions)) [
      | inl missing ↦ ground arith
      | inr (old, found) ↦ ground (arith, contains-insert k id (sign payload old) s.transactions)
    ]
apply-keeps_transaction c _ s id h = ground arith
