-- ===== src/Chains/Examples.antt =====
-- Requests that the adapters build.
use mpc_custody.Prelude.{◌≡◌, refl, ◌↔◌, none, [], ◌∷◌, ◌&&◌, if◌then◌else◌}
use mpc_custody.Errors.{message}
use mpc_custody.Go.Str.{Str, str_eq, bytes}
use mpc_custody.Go.Int.{ℤ, pos}
use mpc_custody.Go.Exec.{ok, err, Exec}
use mpc_custody.Wallet.Types.{
  Time, Wallet, TransactionRequest, RawTransaction, chain_bitcoin, chain_evm,
}
use mpc_custody.Wallet.Interfaces.{Context}
use mpc_custody.Chains.Evm
use mpc_custody.Chains.Evm.Local.{BuiltLocally, requested_json, build_transaction-BuiltLocally}
use mpc_custody.Chains.Evm.Nonces.{is_ok, advance, build_transaction_nonces}
use mpc_custody.Chains.Bitcoin.{
  Adapter, written, build_transaction, IsBuildable, build_transaction_iff,
}

abbrev live : Context
live = record { err_at = λ n. none; trace = none }

abbrev pub done : Context → Exec Unit (Unit {0})
done ctx w = (ok tt, w)

abbrev pub now : Exec Unit Time
now w = (ok 7, w)

abbrev pub format_time : Time → Str
format_time t = t ∷ []

abbrev pub sha256 : Str → Str
sha256 s = s

abbrev testnet : Adapter
testnet = record { network = bytes "testnet" }

abbrev source : Wallet
source = record {
  id = bytes "wlt_1";
  chain = chain_bitcoin;
  address = bytes "tb1q";
  public_key = [];
  created_at = 0;
}

abbrev request : TransactionRequest
request = record {
  wallet_id = bytes "wlt_1";
  to = bytes "tb1p";
  amount = bytes "250";
  fee_rate_sats = pos 2;
  gas_limit = 0;
  max_fee_per_gas = [];
  call_data = [];
  utxos = record { tx_id = bytes "aa"; vout = 0; amount_sats = pos 900; script_pub_key = [] } ∷ [];
  metadata = none;
}

abbrev raw : RawTransaction
raw = record {
  chain = bytes "bitcoin";
  payload = written testnet source request (pos 250) (7 ∷ []);
}

built : (build_transaction done now format_time sha256 testnet live source request tt).0 ≡ ok raw
unfolding build_transaction mpc_custody.Chains.Bitcoin.payload chain_bitcoin
    mpc_custody.Go.Json.fields_of mpc_custody.Go.Json.items_of mpc_custody.Chains.Bitcoin.utxos_json
    mpc_custody.Go.Exec.◌>>=◌ mpc_custody.Chains.Bitcoin.check_request
    mpc_custody.Go.Strconv.parse_int mpc_custody.Go.Str.str_eq bytes
built = refl

build_transaction_iff_example :
    ((build_transaction done now format_time sha256 testnet live source request tt).0 ≡ ok raw) ↔ (
      (v : ℤ) × IsBuildable request v
      × (raw ≡ record {
        chain = bytes "bitcoin";
        payload = written testnet source request v (7 ∷ []);
      }))
build_transaction_iff_example =
    build_transaction_iff done now format_time sha256 testnet live source request raw tt tt tt 7
      refl refl

-- An EVM request of the same wallet, whose address has nonce 4, without a node.
abbrev local_evm : Evm.Adapter
local_evm = record { chain_id = 31337; rpc_url = [] }

abbrev evm_request : TransactionRequest
evm_request = record request { gas_limit = 21000; max_fee_per_gas = bytes "30" }

abbrev pub no_node : Evm.Outside Unit
no_node = record {
  done = done;
  now = now;
  format_time = format_time;
  sha256 = sha256;
  hex_decode = λ s. ok s;
  dial = λ ctx url x. (err (message []), x);
  chain_id = λ ctx x. (ok 1, x);
  pending_nonce_at = λ ctx address x. (ok 0, x);
  estimate_gas = λ ctx from to value input x. (ok 21000, x);
  suggest_gas_price = λ ctx x. (ok [], x);
  suggest_gas_tip_cap = λ ctx x. (ok [], x);
  send = λ ctx raw x. (ok [], x);
}

abbrev at_four : Evm.State Unit
at_four = record { nonces = (bytes "tb1q", 4) ∷ []; external = tt }

moved :
    (Evm.build_transaction no_node local_evm live source evm_request at_four).1.nonces
    ≡ (bytes "tb1q", 5) ∷ []
unfolding Evm.build_transaction Evm.fill_locally Evm.next_nonce Evm.check_request Evm.new_payload
    mpc_custody.Go.Exec.◌>>=◌ mpc_custody.Go.Strconv.parse_big mpc_custody.Go.Str.str_eq bytes
    mpc_custody.Go.Dict.lookup mpc_custody.Go.Dict.insert
moved = refl

build_transaction_nonces_example :
    (Evm.build_transaction no_node local_evm live source evm_request at_four).1.nonces ≡ (
      if str_eq [] []
        && is_ok (Evm.build_transaction no_node local_evm live source evm_request at_four).0
      then advance (bytes "tb1q") at_four.nonces
      else at_four.nonces)
build_transaction_nonces_example =
    build_transaction_nonces no_node local_evm live source evm_request at_four

abbrev evm_raw : RawTransaction
evm_raw = record {
  chain = chain_evm;
  payload = requested_json local_evm source evm_request 4 (7 ∷ []);
}

build_transaction-BuiltLocally_example : BuiltLocally local_evm source evm_request 4 evm_raw
unfolding Evm.build_transaction Evm.fill_locally Evm.next_nonce Evm.check_request
    mpc_custody.Go.Exec.◌>>=◌ mpc_custody.Go.Strconv.parse_big mpc_custody.Go.Str.str_eq bytes
    mpc_custody.Go.Dict.lookup mpc_custody.Go.Dict.insert Evm.new_payload Evm.payload_json chain_evm
    mpc_custody.Go.Json.fields_of
build_transaction-BuiltLocally_example =
    build_transaction-BuiltLocally no_node local_evm live source evm_request refl at_four
      (record at_four { nonces = (bytes "tb1q", 5) ∷ [] }) evm_raw refl
