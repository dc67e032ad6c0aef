-- ===== src/World/Examples.antt =====
-- A custody service with one adapter and a backend that always sign, and runs of it.
use mathlib.Core.Option.{some-injective}
use mpc_custody.Prelude.{
  ◌≡◌, refl, subst, Option, none, some, List, [], ◌∷◌, arith, Bool-cases, inl, inr, map,
}
use mpc_custody.Go.Str.{Str, bytes, str_eq}
use mpc_custody.Go.Int.{pos}
use mpc_custody.Go.Json.{null}
use mpc_custody.Go.Dict.{lookup, insert}
use mpc_custody.Go.Exec.{ok, ◌>>=◌}
use mpc_custody.Wallet.Types.{
  TransactionRequest, TransactionProposal, chain_bitcoin, proposed, broadcasted, Wallet,
}
use mpc_custody.Wallet.Interfaces.{Context, ChainAdapter}
use mpc_custody.Wallet.Service.{new_chain_registry}
use mpc_custody.Store.Memory.{new_memory_store}
use mpc_custody.Ids.{new_id}
use mpc_custody.Wallet.Service
use mpc_custody.World.Calm.{Calm}
use mpc_custody.World.{World, Setup, on_store, ask, count_metric}
use mpc_custody.World.Requests.{
  Request, creates_wallet, proposes_transaction, cosigns, broadcasts, handle_by, serve,
}
use mpc_custody.World.Order.{KeepsStore, HasOwnState}
use mpc_custody.World.Quorum.{AllSound}

abbrev pub adapter : ChainAdapter (World Unit)
adapter = record {
  chain = chain_bitcoin;
  build_transaction =
      λ ctx source request w. (ok (record { chain = chain_bitcoin; payload = null }), w);
  broadcast = λ ctx payload w. (ok (bytes "hash"), w);
}

abbrev pub demo : Setup Unit
demo = record {
  adapters = adapter ∷ [];
  signer = record {
    create_wallet =
        λ ctx id chain w. (ok (record { address = bytes "address"; public_key = bytes "key" }), w);
    sign_transaction = λ ctx p w.
        (ok (record { signed_transaction = bytes "payload"; signature_id = bytes "sig" }), w);
  };
  policy = record {
    allowed_signers = (bytes "ann", tt) ∷ (bytes "bob", tt) ∷ [];
    max_bitcoin_amount_sats = pos 1000;
    max_evm_amount_wei = none;
  };
  outside = record { now_at = λ n. n; random_at = λ n size. ok (n ∷ []) };
}

abbrev pub start : World Unit
start = record {
  store = new_memory_store;
  metrics = record { counters = []; latencies = [] };
  external = tt;
  tick = 0;
}

abbrev pub live : Context
live = record { err_at = λ n. none; trace = none }

abbrev pub request : TransactionRequest
request = record {
  wallet_id = bytes "wlt_00";
  to = bytes "tb1q";
  amount = bytes "250";
  fee_rate_sats = pos 2;
  gas_limit = 0;
  max_fee_per_gas = [];
  call_data = [];
  utxos = [];
  metadata = none;
}

abbrev script : List (Context × Request)
script =
    (live, creates_wallet chain_bitcoin [])
    ∷ (live, proposes_transaction request (bytes "k1"))
    ∷ (live, proposes_transaction request (bytes "k1"))
    ∷ (live, cosigns (bytes "txn_07") (bytes "ann"))
    ∷ (live, cosigns (bytes "txn_07") (bytes "eve"))
    ∷ (live, cosigns (bytes "txn_07") (bytes "bob"))
    ∷ (live, broadcasts (bytes "txn_07"))
    ∷ []

-- In a registry of one adapter, what is found is that adapter.
registry_single :
    {W : Type 0} (a b : ChainAdapter W) (chain : Str)
    → lookup chain (new_chain_registry (a ∷ [])) ≡ some b
    → a ≡ b
unfolding new_chain_registry lookup insert
registry_single a b chain h = elim (Bool-cases (str_eq a.chain chain)) [
  | inl same ↦ some-injective a b (rw same at h)
  | inr other ↦ absurd (none-ne-some (rw other at h))
]
  where
    none-ne-some : ◌≡◌ {A = Option (ChainAdapter _)} none (some b) → ⊥
    none-ne-some e = cc

pub demo-HasOwnState : HasOwnState demo
demo-HasOwnState = record {
  key_keeps = λ ctx id chain. record { at = λ w. refl };
  sign_keeps = λ ctx p. record { at = λ w. refl };
  build_keeps = λ ctx chain a w r found.
      subst (λ b. KeepsStore (b.build_transaction ctx w r)) (registry_single adapter a chain found)
        (record { at = λ v. refl });
  send_keeps = λ ctx chain a payload found.
      subst (λ b. KeepsStore (b.broadcast ctx payload)) (registry_single adapter a chain found)
        (record { at = λ v. refl });
}

pub start-AllSound : AllSound demo.policy start.store.transactions
unfolding new_memory_store lookup
start-AllSound = record { at_id = λ id p found. absurd (ground arith) }

-- The two approvals of the script, with the refused one between them, sign the transaction, and the
-- repeated proposal creates nothing.
script_broadcasts :
    map (λ (e : Str × TransactionProposal). e.1.status) (serve demo script start).store.transactions
    ≡ broadcasted ∷ []
unfolding serve handle_by Service.create_wallet Service.propose_transaction Service.cosign
    Service.broadcast on_store ask count_metric new_id bytes new_chain_registry new_memory_store
    ◌>>=◌ mpc_custody.Store.Memory.get_transaction lookup str_eq
    mpc_custody.Wallet.Policy.signer_allowed mpc_custody.Store.Memory.add_approval
    mpc_custody.Store.Memory.get_wallet insert chain_bitcoin mpc_custody.Store.Memory.create_wallet
    mpc_custody.Store.Memory.append_audit_event mpc_custody.Wallet.Policy.validate_amount_policy
    mpc_custody.Go.Strconv.parse_int mpc_custody.Store.Memory.create_transaction_idempotently
    Service.new_proposal mpc_custody.Go.Exec.on_error
    mpc_custody.Store.Memory.mark_transaction_signed mpc_custody.Go.Hex.hex_encode
    mpc_custody.Store.Memory.update_transaction mpc_custody.Store.Memory.idempotency_key
script_broadcasts = refl

abbrev a_wallet : Wallet
a_wallet = record {
  id = 97 ∷ [];
  chain = chain_bitcoin;
  address = [];
  public_key = [];
  created_at = 0;
}

abbrev funded : World Unit
funded = record start { store = record start.store { wallets = (97 ∷ [], a_wallet) ∷ [] } }

abbrev pub proposal : TransactionProposal
proposal = record {
  id = bytes "txn_1";
  wallet_id = bytes "wlt_1";
  chain = chain_bitcoin;
  status = proposed;
  request = request;
  raw_transaction = record { chain = chain_bitcoin; payload = null };
  approvals = (bytes "ann", record { signer_id = bytes "ann"; created_at = 3 }) ∷ [];
  signed_transaction = [];
  broadcast_hash = [];
  error = [];
  trace = [];
  created_at = 2;
  updated_at = 3;
}

abbrev pub waiting : World Unit
waiting = record start {
  store = record start.store { transactions = (bytes "txn_1", proposal) ∷ [] };
}

pub demo-Calm : Calm demo live
demo-Calm = record { alive = λ n. refl; bytes_at = λ n size. n ∷ []; random_ok = λ n size. refl }
