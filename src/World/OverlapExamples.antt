-- ===== src/World/OverlapExamples.antt =====
-- Requests that overlap: two approvals, and two broadcasts through an adapter that fails at first.
use mpc_custody.Prelude.{ℕ, ◌+◌, ◌==◌, ◌≡◌, refl, some, List, [], ◌∷◌, ◌++◌, if◌then◌else◌, map}
use mpc_custody.Errors.{message}
use mpc_custody.Go.Str.{Str, bytes}
use mpc_custody.Go.Dict.{lookup}
use mpc_custody.Go.Json.{null}
use mpc_custody.Go.Exec.{ok, err}
use mpc_custody.Wallet.Types.{
  Wallet, TransactionProposal, TransactionStatus, chain_bitcoin, AuditEvent, transaction_broadcast,
  transaction_failed, TransactionStatus, signed, broadcasted, failed,
}
use mpc_custody.Wallet.Interfaces.{ChainAdapter}
use mpc_custody.World.{World, Setup}
use mpc_custody.World.Requests.{Request, creates_wallet, proposes_transaction, cosigns, broadcasts}
use mpc_custody.World.Quorum.{AllSound}
use mpc_custody.World.Grows.{Grows, Steady, undisturbed}
use mpc_custody.World.Activity.{
  Activity, rests, follows, serves, in_turn, run, handle_among, handle_among-Steady,
  handle_among_sound, run-AllSound,
}
use mpc_custody.World.Overlap.{run_keeps_trail}
use mpc_custody.World.Examples.{
  demo, demo-HasOwnState, start, start-AllSound, live, request, proposal,
}

abbrev prepared : Activity Request
prepared = in_turn (
    (live, creates_wallet chain_bitcoin [])
    ∷ (live, proposes_transaction request (bytes "k1"))
    ∷ [])

abbrev proposed_world : World Unit
proposed_world = run (handle_among demo) prepared start

-- While an approval waits for its audit event, another one completes the quorum, and the transaction is
-- broadcast.
abbrev script : Activity Request
script = follows prepared (
    serves live (cosigns (bytes "txn_07") (bytes "ann")) (λ n.
      if n == 17
      then in_turn (
          (live, cosigns (bytes "txn_07") (bytes "bob")) ∷ (live, broadcasts (bytes "txn_07")) ∷ [])
      else rests))

abbrev of_stored : {A X : Type 0} → (TransactionProposal → A) → World X → List A
of_stored f w = map (λ (e : Str × TransactionProposal). f e.1) w.store.transactions

script_broadcasts_too :
    of_stored (λ p. p.status) (run (handle_among demo) script start) ≡ broadcasted ∷ []
unfolding run in_turn mpc_custody.World.Requests.handle_by mpc_custody.Wallet.Service.create_wallet
    mpc_custody.Wallet.Service.propose_transaction mpc_custody.Wallet.Service.cosign
    mpc_custody.Wallet.Service.broadcast mpc_custody.World.on_store mpc_custody.World.ask
    mpc_custody.World.count_metric mpc_custody.Ids.new_id bytes
    mpc_custody.Wallet.Service.new_chain_registry mpc_custody.Store.Memory.new_memory_store
    mpc_custody.Go.Exec.◌>>=◌ mpc_custody.Store.Memory.get_transaction lookup
    mpc_custody.Go.Str.str_eq mpc_custody.Wallet.Policy.signer_allowed
    mpc_custody.Store.Memory.add_approval mpc_custody.Store.Memory.get_wallet
    mpc_custody.Go.Dict.insert chain_bitcoin mpc_custody.Store.Memory.create_wallet
    mpc_custody.Store.Memory.append_audit_event mpc_custody.Wallet.Policy.validate_amount_policy
    mpc_custody.Go.Strconv.parse_int mpc_custody.Store.Memory.create_transaction_idempotently
    mpc_custody.Wallet.Service.new_proposal mpc_custody.Go.Exec.on_error
    mpc_custody.Store.Memory.mark_transaction_signed mpc_custody.Go.Hex.hex_encode
    mpc_custody.Store.Memory.update_transaction mpc_custody.Store.Memory.idempotency_key
script_broadcasts_too = refl

run-AllSound_example :
    AllSound demo.policy (run (handle_among demo) script start).store.transactions
    × Grows start.store.transactions (run (handle_among demo) script start).store.transactions
run-AllSound_example = run-AllSound demo script start demo-HasOwnState start-AllSound

run_keeps_trail_example :
    ((new : List AuditEvent) × ((run (handle_among demo) script start).store.audit_events
        ≡ start.store.audit_events ++ new))
    × ((id : Str) (v : Wallet)
        → lookup id start.store.wallets ≡ some v
        → lookup id (run (handle_among demo) script start).store.wallets ≡ some v)
run_keeps_trail_example = run_keeps_trail demo script start demo-HasOwnState

-- Another request approves while one does.
abbrev bob_meanwhile : World Unit → World Unit
bob_meanwhile = handle_among demo (λ w. w) live (cosigns (bytes "txn_07") (bytes "bob"))

bob_meanwhile-Steady : Steady (AllSound demo.policy) bob_meanwhile
bob_meanwhile-Steady =
    handle_among-Steady demo (λ w. w) live (cosigns (bytes "txn_07") (bytes "bob")) demo-HasOwnState
      (undisturbed (AllSound demo.policy))

handle_among_sound_example :
    AllSound demo.policy
      (handle_among demo bob_meanwhile live
        (cosigns (bytes "txn_07") (bytes "ann"))
        proposed_world).store.transactions
    × Grows proposed_world.store.transactions
        (handle_among demo bob_meanwhile live
          (cosigns (bytes "txn_07") (bytes "ann"))
          proposed_world).store.transactions
handle_among_sound_example =
    handle_among_sound demo bob_meanwhile live (cosigns (bytes "txn_07") (bytes "ann"))
      proposed_world demo-HasOwnState bob_meanwhile-Steady
      (run-AllSound demo prepared start demo-HasOwnState start-AllSound).0

-- An adapter that fails at first; its state counts the calls.
abbrev flaky : ChainAdapter (World ℕ)
flaky = record {
  chain = chain_bitcoin;
  build_transaction =
      λ ctx source request w. (ok (record { chain = chain_bitcoin; payload = null }), w);
  broadcast = λ ctx payload w. (
    if w.external == 0 then err (message (bytes "timeout")) else ok (bytes "hash"),
    record w { external = w.external + 1 },
  );
}

abbrev unreliable : Setup ℕ
unreliable = record {
  adapters = flaky ∷ [];
  signer = record {
    create_wallet = λ ctx id chain w. (err (message []), w);
    sign_transaction = λ ctx p w. (err (message []), w);
  };
  policy = demo.policy;
  outside = demo.outside;
}

abbrev ready : World ℕ
ready = record {
  store = record start.store {
    transactions =
        (bytes "txn_1", record proposal { status = signed; signed_transaction = bytes "payload" })
        ∷ [];
  };
  metrics = record { counters = []; latencies = [] };
  external = 0;
  tick = 0;
}

-- The first broadcast fails; before its failure is stored, a second one succeeds.
abbrev twice : Activity Request
twice =
    serves live (broadcasts (bytes "txn_1"))
      (λ n. if n == 2 then in_turn ((live, broadcasts (bytes "txn_1")) ∷ []) else rests)

-- The first failure is written over the second broadcast, of which only the audit trail tells.
broadcast_lost :
    (of_stored {A = TransactionStatus × Str}
        (λ p. (p.status, p.broadcast_hash))
        (run (handle_among unreliable) twice ready)
      ≡ (failed, []) ∷ [])
    × (map
          (λ (e : AuditEvent). e.event_type)
          (run (handle_among unreliable) twice ready).store.audit_events
        ≡ transaction_broadcast ∷ transaction_failed ∷ [])
unfolding run in_turn mpc_custody.World.Requests.handle_by mpc_custody.Wallet.Service.create_wallet
    mpc_custody.Wallet.Service.propose_transaction mpc_custody.Wallet.Service.cosign
    mpc_custody.Wallet.Service.broadcast mpc_custody.World.on_store mpc_custody.World.ask
    mpc_custody.World.count_metric mpc_custody.Ids.new_id bytes
    mpc_custody.Wallet.Service.new_chain_registry mpc_custody.Store.Memory.new_memory_store
    mpc_custody.Go.Exec.◌>>=◌ mpc_custody.Store.Memory.get_transaction lookup
    mpc_custody.Go.Str.str_eq mpc_custody.Wallet.Policy.signer_allowed
    mpc_custody.Store.Memory.add_approval mpc_custody.Store.Memory.get_wallet
    mpc_custody.Go.Dict.insert chain_bitcoin mpc_custody.Store.Memory.create_wallet
    mpc_custody.Store.Memory.append_audit_event mpc_custody.Wallet.Policy.validate_amount_policy
    mpc_custody.Go.Strconv.parse_int mpc_custody.Store.Memory.create_transaction_idempotently
    mpc_custody.Wallet.Service.new_proposal mpc_custody.Go.Exec.on_error
    mpc_custody.Store.Memory.mark_transaction_signed mpc_custody.Go.Hex.hex_encode
    mpc_custody.Store.Memory.update_transaction mpc_custody.Store.Memory.idempotency_key
    mpc_custody.Go.Exec.ignore mpc_custody.Go.Exec.map_error
broadcast_lost = (refl, refl)
