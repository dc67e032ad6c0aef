-- ===== src/World/LifecycleExamples.antt =====
-- A proposal that is approved, signed and broadcast.
use mpc_custody.Prelude.{◌≡◌, ◌==◌, if◌then◌else◌, refl, none, some, List, [], ◌∷◌, arith}
use mpc_custody.Go.Str.{Str, str_eq, str_eq_iff, bytes}
use mpc_custody.Go.Dict.{lookup, insert}
use mpc_custody.Go.Exec.{ok, err}
use mpc_custody.Wallet.Types.{TransactionProposal, chain_bitcoin, signed, broadcasted}
use mpc_custody.Wallet.Interfaces.{Context}
use mpc_custody.Wallet.Service.{broadcast, cosign, new_chain_registry}
use mpc_custody.World.{World, service}
use mpc_custody.World.Stranded.{IsStranded, cosign_strands}
use mpc_custody.Errors.{message}
use mpc_custody.Wallet.Policy.{signer_allowed}
use mpc_custody.World.Requests.{Request, cosigns, broadcasts, serve}
use mpc_custody.World.Lifecycle.{Advanced}
use mpc_custody.World.Progress.{serve-Advanced}
use mpc_custody.World.Once.{IsRefused, broadcast_once}
use mpc_custody.World.Delivery.{Accepts, Delivered, broadcast_completes}
use mpc_custody.World.Examples.{adapter, demo, demo-Calm, demo-HasOwnState, live, proposal, waiting}

abbrev closing : List (Context × Request)
closing = (live, cosigns (bytes "txn_1") (bytes "bob")) ∷ (live, broadcasts (bytes "txn_1")) ∷ []

waiting-keyed :
    (j : Str) (q : TransactionProposal) → lookup j waiting.store.transactions ≡ some q → q.id ≡ j
unfolding lookup
waiting-keyed j q found = ground (arith, str_eq_iff (bytes "txn_1") j)

serve-Advanced_example :
    (q : TransactionProposal) × (lookup
        (bytes "txn_1")
        (serve demo closing waiting).store.transactions
      ≡ some q)
    × Advanced proposal q
unfolding lookup str_eq bytes
serve-Advanced_example =
    serve-Advanced demo closing waiting (bytes "txn_1") proposal demo-HasOwnState waiting-keyed refl

-- The same proposal after its broadcast.
abbrev sent : TransactionProposal
sent = record proposal { status = broadcasted; broadcast_hash = bytes "hash" }

abbrev after : World Unit
after = record waiting {
  store = record waiting.store { transactions = (bytes "txn_1", sent) ∷ [] };
}

after-keyed :
    (j : Str) (q : TransactionProposal) → lookup j after.store.transactions ≡ some q → q.id ≡ j
unfolding lookup
after-keyed j q found = ground (arith, str_eq_iff (bytes "txn_1") j)

broadcast_once_example :
    IsRefused (broadcast (service demo) live (bytes "txn_1")) (serve demo closing after)
unfolding lookup str_eq bytes
broadcast_once_example =
    broadcast_once demo closing after live (bytes "txn_1") sent demo-HasOwnState after-keyed refl
      refl

-- The same proposal before its broadcast.
abbrev ready : TransactionProposal
ready = record proposal { status = signed; signed_transaction = bytes "payload" }

abbrev before : World Unit
before = record waiting {
  store = record waiting.store { transactions = (bytes "txn_1", ready) ∷ [] };
}

ready-Accepts : Accepts demo live chain_bitcoin (bytes "payload") (bytes "hash")
unfolding new_chain_registry lookup insert str_eq chain_bitcoin bytes
ready-Accepts = record {
  adapter = adapter;
  registered = refl;
  answers = λ w. refl;
  keeps = λ w. refl;
}

broadcast_completes_example :
    (q : TransactionProposal) × ((broadcast (service demo) live (bytes "txn_1") before).0 ≡ ok q)
    × Delivered ready
        (bytes "hash")
        q
        (broadcast (service demo) live (bytes "txn_1") before).1.store.transactions
unfolding lookup str_eq bytes
broadcast_completes_example =
    broadcast_completes demo live demo-Calm ready (bytes "hash") before ready-Accepts refl refl (cc)

-- A context that ends before the event of the second approval is stored.
abbrev cancelled : Context
cancelled = record {
  err_at = λ n. if n == 4 then some (message (bytes "cancelled")) else none;
  trace = none;
}

cosign_strands_example :
    ((cosign (service demo) cancelled (bytes "txn_1") (bytes "bob") waiting).0
      ≡ err (message (bytes "cancelled")))
    × IsStranded
        (bytes "txn_1")
        (bytes "bob")
        proposal
        waiting.store
        (cosign (service demo) cancelled (bytes "txn_1") (bytes "bob") waiting).1.store
    × ((later : Context)
        → IsRefused
            (cosign (service demo) later (bytes "txn_1") (bytes "bob"))
            (cosign (service demo) cancelled (bytes "txn_1") (bytes "bob") waiting).1)
unfolding lookup str_eq bytes signer_allowed
cosign_strands_example =
    cosign_strands demo cancelled (bytes "txn_1") (bytes "bob") proposal waiting (2 ∷ [])
      (message (bytes "cancelled")) (cc) refl refl refl refl refl refl refl
