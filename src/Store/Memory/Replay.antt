-- ===== src/Store/Memory/Replay.antt =====
-- Idempotency keys of internal/store/memory.go over histories of its methods.
use mpc_custody.Prelude.{◌≡◌, refl, true, false, Option, none, some, List, [], ◌∷◌, arith}
use mpc_custody.Errors.{Error}
use mpc_custody.Go.Str.{Str}
use mpc_custody.Go.Dict.{lookup, contains, lookup-insert_self}
use mpc_custody.Go.Exec.{ok}
use mpc_custody.Wallet.Types.{Wallet, TransactionProposal, IdempotencyRecord}
use mpc_custody.Store.Memory.{
  MemoryStore, create_wallet_idempotently, create_transaction_idempotently, idempotency_key,
}
use mpc_custody.Store.Memory.Calls.{
  Call, run, apply, apply-keeps_record, apply-keeps_wallet, apply-keeps_transaction,
}

run-keeps_record :
    (h : List (Option Error × Call)) (s : MemoryStore) (key : Str) (r : IdempotencyRecord)
    → lookup key s.idempotency ≡ some r
    → lookup key (run h s).idempotency ≡ some r
unfolding run
run-keeps_record [] s key r e = e
run-keeps_record ((c, call) ∷ h) s key r e =
    run-keeps_record h (apply c call s).1 key r (apply-keeps_record c call s key r e)

-- No method changes a stored wallet or removes it.
pub run-keeps_wallet :
    (h : List (Option Error × Call)) (s : MemoryStore) (id : Str) (w : Wallet)
    → lookup id s.wallets ≡ some w
    → lookup id (run h s).wallets ≡ some w
unfolding run
run-keeps_wallet [] s id w e = e
run-keeps_wallet ((c, call) ∷ h) s id w e =
    run-keeps_wallet h (apply c call s).1 id w (apply-keeps_wallet c call s id w e)

run-keeps_transaction :
    (h : List (Option Error × Call)) (s : MemoryStore) (id : Str)
    → contains id s.transactions ≡ true
    → contains id (run h s).transactions ≡ true
unfolding run
run-keeps_transaction [] s id e = e
run-keeps_transaction ((c, call) ∷ h) s id e =
    run-keeps_transaction h (apply c call s).1 id (apply-keeps_transaction c call s id e)

created_wallet :
    (c : Option Error) (w : Wallet) (r : IdempotencyRecord) (s s' : MemoryStore)
    → create_wallet_idempotently c w r s ≡ (ok (w, true), s')
    → (lookup (idempotency_key r.scope r.key) s'.idempotency ≡ some r)
      × (lookup w.id s'.wallets ≡ some w)
unfolding create_wallet_idempotently
created_wallet c w r s s' h = ground (
  arith,
  lookup-insert_self (idempotency_key r.scope r.key) r s.idempotency,
  lookup-insert_self w.id w s.wallets,
)

created_transaction :
    (c : Option Error) (p : TransactionProposal) (r : IdempotencyRecord) (s s' : MemoryStore)
    → create_transaction_idempotently c p r s ≡ (ok (p, true), s')
    → (lookup (idempotency_key r.scope r.key) s'.idempotency ≡ some r)
      × (contains p.id s'.transactions ≡ true)
unfolding create_transaction_idempotently
created_transaction c p r s s' h = ground (
  arith,
  lookup-insert_self (idempotency_key r.scope r.key) r s.idempotency,
  lookup-insert_self p.id p s.transactions,
)

contained :
    {V : Type 0} (o : Option V)
    → elim o [ none ↦ false | some _ ↦ true ] ≡ true
    → (v : V) × (o ≡ some v)
contained none h = absurd (cc)
contained (some v) h = (v, refl)

-- Once a wallet was created under a scope and a key, with a record that names it, a later creation
-- under them gives that wallet and changes nothing, whatever wallet the call brings and whatever
-- calls there were in between.
pub create_wallet_idempotently_replay :
    (c : Option Error) (w : Wallet) (r : IdempotencyRecord) (s s' : MemoryStore)
    (h : List (Option Error × Call)) (w' : Wallet) (r' : IdempotencyRecord)
    → r.resource_id ≡ w.id
    → create_wallet_idempotently c w r s ≡ (ok (w, true), s')
    → r'.scope ≡ r.scope
    → r'.key ≡ r.key
    → create_wallet_idempotently none w' r' (run h s') ≡ (ok (w, false), run h s')
unfolding create_wallet_idempotently
create_wallet_idempotently_replay c w r s s' h w' r' own created scope key =
    let (kept, stored) = created_wallet c w r s s' created in
    ground (
      arith,
      own,
      run-keeps_record h s' (idempotency_key r.scope r.key) r kept,
      run-keeps_wallet h s' w.id w stored,
    )

-- Once a proposal was created under a scope and a key, with a record that names it, a later creation
-- under them in a live context gives the proposal that is stored under its id by then and changes
-- nothing, whatever proposal the call brings and whatever calls there were in between.
pub create_transaction_idempotently_replay :
    (c : Option Error) (p : TransactionProposal) (r : IdempotencyRecord) (s s' : MemoryStore)
    (h : List (Option Error × Call)) (p' : TransactionProposal) (r' : IdempotencyRecord)
    → r.resource_id ≡ p.id
    → create_transaction_idempotently c p r s ≡ (ok (p, true), s')
    → r'.scope ≡ r.scope
    → r'.key ≡ r.key
    → (now : TransactionProposal) × (lookup p.id (run h s').transactions ≡ some now)
      × (create_transaction_idempotently none p' r' (run h s') ≡ (ok (now, false), run h s'))
unfolding create_transaction_idempotently
create_transaction_idempotently_replay c p r s s' h p' r' own created scope key =
    let (kept, stored) = created_transaction c p r s s' created in
    let (now, found) =
      contained (lookup p.id (run h s').transactions) (run-keeps_transaction h s' p.id stored) in
    (now, found, ground (arith, own, run-keeps_record h s' (idempotency_key r.scope r.key) r kept))
