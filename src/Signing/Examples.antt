-- ===== src/Signing/Examples.antt =====
-- A backend over toy keys, and a proposal that the EVM adapter built.
use mpc_custody.Prelude.{◌≡◌, refl, none, [], ◌∷◌, ◌++◌, arith}
use mpc_custody.Errors.{message}
use mpc_custody.Go.Str.{Str, bytes}
use mpc_custody.Go.Int.{pos}
use mpc_custody.Go.Json.{Json, str, num, obj, end, field}
use mpc_custody.Go.Hex.{hex_encode}
use mpc_custody.Go.Exec.{Result, ok, err}
use mpc_custody.Wallet.Types.{Wallet, TransactionRequest, TransactionProposal, proposed, chain_evm}
use mpc_custody.Wallet.Interfaces.{Context}
use mpc_custody.Chains.Evm
use mpc_custody.Chains.Evm.{EvmTransactionPayload, payload_json}
use mpc_custody.Chains.Evm.Local.{local_payload}
use mpc_custody.Signing.{Library, SignedTx, WalletRecord, State, sign_transaction}
use mpc_custody.Signing.Gate.{IsGated, sign_transaction-IsGated}
use mpc_custody.Signing.Fees.{IsTaken, bad_fee_passes_the_adapter}
use mpc_custody.Signing.Built.{IsAsked, sign_transaction-built}

abbrev pub read_payload : Json → Result EvmTransactionPayload
read_payload
      (obj (
        field _ (str chain) (
          field _ (num (pos chain_id)) (
            field _ (str from) (
              field _ (str to) (
                field _ (str value_wei) (
                  field _ (num (pos nonce)) (
                    field _ (num (pos gas_limit)) (
                      field _ (str max_fee) (
                        field _ (str max_priority) (
                          field _
                            (str call_data)
                            (field _ (str tx_type) (field _ (str created_at) end))))))))))))) =
    ok (record {
      chain = chain;
      chain_id = chain_id;
      from = from;
      to = to;
      value_wei = value_wei;
      nonce = nonce;
      gas_limit = gas_limit;
      max_fee_per_gas = max_fee;
      max_priority_fee_per_gas = max_priority;
      call_data = call_data;
      tx_type = tx_type;
      created_at = created_at;
    })
read_payload _ = err (message [])

reads_back : (q : EvmTransactionPayload) → read_payload (payload_json q) ≡ ok q
unfolding payload_json
reads_back q = refl

abbrev pub toy : Library Unit Str
toy = record {
  done = λ ctx x. (ok tt, x);
  now = λ x. (ok 7, x);
  format_time = λ t. t ∷ [];
  sha256 = λ s. s;
  hex_decode = λ s. ok s;
  marshal = λ j. ok [];
  unmarshal_payload = read_payload;
  hex_to_address = λ s. s;
  hex_to_ecdsa = λ s. ok s;
  generate_secp256k1 = λ x. (ok (1 ∷ []), x);
  generate_p256 = λ x. (ok (2 ∷ []), x);
  secp256k1_public_bytes = λ k. k;
  p256_public_bytes = λ k. k;
  eth_address = λ k. k;
  sign_digest = λ k digest x. (ok digest, x);
  sign_tx = λ tx k. ok (record { binary = k; hash = tx.nonce ∷ [] });
}

abbrev pub live : Context
live = record { err_at = λ n. none; trace = none }

abbrev local_evm : Evm.Adapter
local_evm = record { chain_id = 31337; rpc_url = [] }

abbrev source : Wallet
source = record {
  id = bytes "wlt_1";
  chain = chain_evm;
  address = bytes "0xaa";
  public_key = [];
  created_at = 0;
}

abbrev request : Str → TransactionRequest
request fee = record {
  wallet_id = bytes "wlt_1";
  to = bytes "0xbb";
  amount = bytes "250";
  fee_rate_sats = pos 0;
  gas_limit = 21000;
  max_fee_per_gas = fee;
  call_data = [];
  utxos = [];
  metadata = none;
}

abbrev pub proposal : Str → TransactionProposal
proposal fee = record {
  id = bytes "txn_1";
  wallet_id = bytes "wlt_1";
  chain = chain_evm;
  status = proposed;
  request = request fee;
  raw_transaction = record {
    chain = chain_evm;
    payload = payload_json (local_payload local_evm source (request fee) 4 (7 ∷ []));
  };
  approvals =
      (bytes "ann", record { signer_id = bytes "ann"; created_at = 1 })
      ∷ (bytes "bob", record { signer_id = bytes "bob"; created_at = 2 })
      ∷ [];
  signed_transaction = [];
  broadcast_hash = [];
  error = [];
  trace = [];
  created_at = 0;
  updated_at = 2;
}

abbrev pub its_record : WalletRecord Str
its_record = record { chain = chain_evm; private = 5 ∷ []; public_key = []; address = bytes "0xaa" }

abbrev backend : State Unit Str
backend = record { records = (bytes "wlt_1", its_record) ∷ []; external = tt }

asked : (fee : Str) → IsAsked toy (proposal fee) (5 ∷ []) backend
unfolding mpc_custody.Go.Dict.lookup mpc_custody.Go.Str.str_eq bytes
asked fee = record {
  on_evm = refl;
  quorum = omega arith;
  wallet = its_record;
  is_known = refl;
  with_key = refl;
  reads_back = λ q e. rw (e) (reads_back q);
}

abbrev no_node : Evm.Outside Unit
no_node = record {
  done = λ ctx x. (ok tt, x);
  now = λ x. (ok 7, x);
  format_time = λ t. t ∷ [];
  sha256 = λ s. s;
  hex_decode = λ s. ok s;
  dial = λ ctx url x. (err (message []), x);
  chain_id = λ ctx x. (ok 1, x);
  pending_nonce_at = λ ctx address x. (ok 0, x);
  estimate_gas = λ ctx from to value input x. (ok 21000, x);
  suggest_gas_price = λ ctx x. (ok [], x);
  suggest_gas_tip_cap = λ ctx x. (ok [], x);
  send = λ ctx raw x. (ok [], x);
}

abbrev at_four : Evm.State Unit
at_four = record { nonces = (bytes "0xaa", 4) ∷ []; external = tt }

built : Evm.build_transaction no_node local_evm live source (request (bytes "30")) at_four ≡ (
  ok (proposal (bytes "30")).raw_transaction,
  record at_four { nonces = (bytes "0xaa", 5) ∷ [] },
)
unfolding Evm.build_transaction Evm.fill_locally Evm.next_nonce Evm.check_request Evm.new_payload
    mpc_custody.Go.Exec.◌>>=◌ mpc_custody.Go.Strconv.parse_big mpc_custody.Go.Str.str_eq bytes
    mpc_custody.Go.Dict.lookup mpc_custody.Go.Dict.insert
built = refl

sign_transaction-built_example :
    (sign_transaction toy live (proposal (bytes "30")) backend).0
    ≡ ok (record { signed_transaction = bytes "0x" ++ hex_encode (5 ∷ []); signature_id = 4 ∷ [] })
unfolding bytes mpc_custody.Go.Strconv.parse_big mpc_custody.Go.Split.after_prefix
    mpc_custody.Go.Dict.lookup mpc_custody.Go.Str.str_eq
sign_transaction-built_example =
    sign_transaction-built toy (proposal (bytes "30")) (5 ∷ []) backend no_node local_evm live live
      source (request (bytes "30")) at_four (record at_four { nonces = (bytes "0xaa", 5) ∷ [] }) tt
      (pos 250) (pos 30) [] (record { binary = 5 ∷ []; hash = 4 ∷ [] }) refl built
      (asked (bytes "30")) refl refl refl refl refl

bad_fee-IsTaken : IsTaken (request (bytes "30 gwei")) (pos 250)
unfolding bytes mpc_custody.Go.Strconv.parse_big
bad_fee-IsTaken = record {
  has_destination = cc;
  amount_read = refl;
  amount_positive = omega arith;
  has_gas = omega arith;
  has_fee = cc;
}

bad_fee_passes_the_adapter_example :
    ((Evm.build_transaction no_node local_evm live source (request (bytes "30 gwei")) at_four).0
      ≡ ok (proposal (bytes "30 gwei")).raw_transaction)
    × ((sign_transaction toy live (proposal (bytes "30 gwei")) backend).0
        ≡ err (message (bytes "evm max_fee_per_gas must be a base-10 integer")))
unfolding bytes mpc_custody.Go.Strconv.parse_big payload_json mpc_custody.Chains.Evm.new_payload
    chain_evm mpc_custody.Go.Json.fields_of mpc_custody.Go.Dict.lookup mpc_custody.Go.Str.str_eq
bad_fee_passes_the_adapter_example =
    bad_fee_passes_the_adapter toy (proposal (bytes "30 gwei")) (5 ∷ []) backend no_node local_evm
      live live source (request (bytes "30 gwei")) at_four tt tt tt 7 (pos 250) refl refl refl
      bad_fee-IsTaken refl refl (asked (bytes "30 gwei")) refl

signed_by_quorum : sign_transaction toy live (proposal (bytes "30")) backend ≡ (
  ok (record { signed_transaction = bytes "0x" ++ hex_encode (5 ∷ []); signature_id = 4 ∷ [] }),
  backend,
)
unfolding sign_transaction mpc_custody.Signing.sign_evm_transaction payload_json
    mpc_custody.Chains.Evm.new_payload bytes mpc_custody.Go.Strconv.parse_big
    mpc_custody.Go.Split.after_prefix mpc_custody.Go.Str.str_eq mpc_custody.Go.Dict.lookup
    mpc_custody.Go.Exec.◌>>=◌ chain_evm
signed_by_quorum = refl

sign_transaction-IsGated_example :
    IsGated (proposal (bytes "30")) backend × (backend.records ≡ backend.records)
sign_transaction-IsGated_example =
    sign_transaction-IsGated toy live (proposal (bytes "30")) backend backend
      (record { signed_transaction = bytes "0x" ++ hex_encode (5 ∷ []); signature_id = 4 ∷ [] })
      signed_by_quorum
