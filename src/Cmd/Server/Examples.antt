-- ===== src/Cmd/Server/Examples.antt =====
-- A fresh process with two API keys and two signers, without a node, to which HTTP requests come.
use mpc_custody.Prelude.{
  false, sym, ◌∙◌, ◌==◌, if◌then◌else◌, ◌≡◌, refl, Option, none, some, true, List, [], ◌∷◌, ◌++◌,
  inr,
}
use mpc_custody.Cmd.Server.Custody.{served, stored_after, HasTwoSigners, stored_after-HasTwoSigners}
use mpc_custody.Cmd.Server.History.{run_in_turn, Continues, run_in_turn-Continues}
use mpc_custody.World.Activity.{Activity, rests, follows, serves, in_turn}
use mpc_custody.Go.Json.{null}
use mpc_custody.Wallet.Policy.{validate_amount_policy}
use mpc_custody.Cmd.{policy_of}
use mpc_custody.Go.Str.{Str, bytes}
use mpc_custody.Go.Int.{pos}
use mpc_custody.Go.Dict.{lookup}
use mpc_custody.Go.Exec.{ok}
use mpc_custody.Wallet.Types.{
  TransactionRequest, TransactionProposal, chain_evm, broadcasted, unset,
}
use mpc_custody.Wallet.Interfaces.{Context}
use mpc_custody.Api.Auth.{HttpRequest, provided_key, is_authorized, is_authorized_iff}
use mpc_custody.Api.Path.{route}
use mpc_custody.Chains.Examples.{no_node}
use mpc_custody.Signing.Examples.{toy}
use mpc_custody.World.{World, service}
use mathlib.Core.List.{Memᴰ}
use mpc_custody.Cmd.Server.Closed.{api_server_closed}
use mpc_custody.Config.{Config}
use mpc_custody.Cmd.Assembly.{Parts, Libraries, fresh, assembly}
use mpc_custody.Cmd.Server.{Web, api_server}

abbrev pub libraries : Libraries Unit Str
libraries = record {
  chain = no_node;
  signing = toy;
  outside = record { now_at = λ n. n; random_at = λ n size. ok (n ∷ []) };
}

abbrev pub cfg : Config
cfg = record {
  http_addr = bytes ":8080";
  service_name = bytes "custody";
  environment = bytes "local";
  broadcast_mode = bytes "dry";
  database_url = [];
  bitcoin_network = bytes "testnet";
  evm_rpc_url = [];
  evm_chain_id = 31337;
  evm_dev_private_key = [];
  api_keys = bytes "k1" ∷ bytes "k2" ∷ [];
  signer_ids = bytes "ann" ∷ bytes "bob" ∷ [];
  max_btc_amount_sats = pos 1000;
  max_evm_amount_wei = some (pos 1000);
  shutdown_grace_time = pos 10;
}

abbrev transfer : Str → TransactionRequest
transfer wallet_id = record {
  wallet_id = wallet_id;
  to = bytes "0xbb";
  amount = bytes "250";
  fee_rate_sats = pos 0;
  gas_limit = 21000;
  max_fee_per_gas = bytes "30";
  call_data = [];
  utxos = [];
  metadata = none;
}

abbrev web : Web (World (Parts Unit Str))
web = record {
  status_text = λ status. status ∷ [];
  moved = 301;
  codec = record {
    decode_wallet = λ body. ok (body, []);
    decode_transaction = λ body. ok (transfer body, []);
    decode_cosign = λ body. ok (body, []);
    at_end = λ rest. true;
    render = λ w. [];
  };
}

abbrev post : Str → Str → Str → Context × HttpRequest
post key path body = (
  record { err_at = λ n. none; trace = none },
  record {
    method = bytes "POST";
    path = path;
    api_key = key;
    authorization = [];
    idempotency_key = [];
    traceparent = [];
    query = λ name. [];
    body = body;
  },
)

abbrev prepared : List (Context × HttpRequest)
prepared =
    post (bytes "k1") (bytes "/v1/wallets") chain_evm
    ∷ post (bytes "k1") (bytes "/v1/transactions") (bytes "wlt_03")
    ∷ []

abbrev by_bob : Activity HttpRequest
by_bob = in_turn (
    post (bytes "k2") (route ++ bytes "txn_0e/cosign") (bytes "eve")
    ∷ post (bytes "k2") (route ++ bytes "txn_0e/cosign") (bytes "bob")
    ∷ [])

abbrev closing : List (Context × HttpRequest)
closing =
    post (bytes "k3") (route ++ bytes "txn_0e/broadcast") []
    ∷ post (bytes "k2") (route ++ bytes "txn_0e/broadcast") []
    ∷ []

-- A wallet, a transfer from it, and an approval. Before its audit event is stored, an approval by a
-- signer who is not listed is refused, and another one completes the quorum.
abbrev script : Activity HttpRequest
script =
    let (ctx, approval) = post (bytes "k1") (route ++ bytes "txn_0e/cosign") (bytes "ann") in
    follows (in_turn prepared) (serves ctx approval (λ n. if n == 28 then by_bob else rests))

abbrev settled : Option TransactionProposal
settled =
    lookup (bytes "txn_0e")
      (stored_after libraries cfg none web (follows script (in_turn closing)) tt)

abbrev blank : TransactionProposal
blank = record {
  id = [];
  wallet_id = [];
  chain = [];
  status = unset;
  request = transfer [];
  raw_transaction = record { chain = []; payload = null };
  signed_transaction = [];
  broadcast_hash = [];
  error = [];
  approvals = [];
  created_at = 0;
  updated_at = 0;
  trace = [];
}

abbrev final : TransactionProposal
final = elim settled [ none ↦ blank | some p ↦ p ]

-- The listed signers' approvals signed the transfer, and the request with a valid key broadcast it.
settled-final : (settled ≡ some final) × (final.status ≡ broadcasted)
unfolding mpc_custody.Ids.new_id mpc_custody.Cmd.signer_set mpc_custody.Cmd.policy_of
    mpc_custody.Signing.create_private_key mpc_custody.Signing.put_record
    mpc_custody.Signing.create_wallet mpc_custody.Signing.sign_evm_transaction
    mpc_custody.Signing.sign_transaction mpc_custody.World.on_store mpc_custody.World.ask
    mpc_custody.World.count_metric mpc_custody.Api.Path.route
    mpc_custody.Api.Path.parse_transaction_path mpc_custody.Api.Auth.provided_key
    mpc_custody.Api.Auth.matches_key mpc_custody.Api.Auth.is_authorized
    mpc_custody.Api.Server.cosign mpc_custody.Api.Server.broadcast
    mpc_custody.Store.Memory.new_memory_store mpc_custody.Store.Memory.Calls.apply
    mpc_custody.Chains.Evm.new_adapter mpc_custody.Chains.Evm.payload_json
    mpc_custody.Chains.Evm.check_request mpc_custody.Chains.Evm.new_payload
    mpc_custody.Chains.Evm.next_nonce mpc_custody.Chains.Evm.fill_locally
    mpc_custody.Chains.Evm.build_transaction mpc_custody.Chains.Evm.broadcast
    mpc_custody.Cmd.Server.api_server mpc_custody.World.Activity.run
    mpc_custody.World.Activity.in_turn mpc_custody.Go.Dict.lookup mpc_custody.Go.Dict.insert
    mpc_custody.Go.Split.after_prefix mpc_custody.Go.Split.trim_left mpc_custody.Go.Split.trim_right
    mpc_custody.Go.Split.split mpc_custody.Go.Strconv.parse_int mpc_custody.Go.Str.str_eq
    mpc_custody.Go.Exec.on_error mpc_custody.Wallet.Policy.signer_allowed
    mpc_custody.Wallet.Policy.validate_amount_policy mpc_custody.Wallet.Types.chain_bitcoin
    mpc_custody.Wallet.Types.chain_evm mpc_custody.Wallet.Service.cosign
    mpc_custody.Wallet.Service.broadcast mpc_custody.Wallet.Service.new_chain_registry
    mpc_custody.Wallet.Service.new_proposal mpc_custody.Wallet.Service.create_wallet
    mpc_custody.Wallet.Service.propose_transaction
settled-final = (refl, refl)

stored_after-HasTwoSigners_example :
    HasTwoSigners cfg final
    × (validate_amount_policy (policy_of cfg) final.chain final.request.amount ≡ ok tt)
stored_after-HasTwoSigners_example =
    stored_after-HasTwoSigners libraries cfg none web (follows script (in_turn closing)) tt
      (bytes "txn_0e") final settled-final.0 (inr settled-final.1)

run_in_turn-Continues_example :
    Continues
      (served libraries cfg none web script (fresh libraries tt)).store
      (run_in_turn libraries cfg none web closing
        (served libraries cfg none web script (fresh libraries tt))).store
run_in_turn-Continues_example = run_in_turn-Continues libraries cfg none web script tt closing

abbrev intruder : HttpRequest
intruder = (post (bytes "k3") (bytes "/v1/wallets") chain_evm).1

intruder_refused : is_authorized cfg.api_keys intruder ≡ false
unfolding is_authorized mpc_custody.Api.Auth.provided_key mpc_custody.Api.Auth.matches_key
    mpc_custody.Go.Split.after_prefix mpc_custody.Go.Str.str_eq bytes
intruder_refused = refl

foreign_key : Memᴰ (provided_key intruder) cfg.api_keys → ⊥
foreign_key m =
    absurd
      (false-ne-true (sym intruder_refused ∙ (is_authorized_iff cfg.api_keys intruder).1 (inr m)))
  where
    false-ne-true : false ≡ true → ⊥
    false-ne-true e = cc

api_server_closed_example :
    ((api_server libraries.outside web cfg.api_keys
        (service (assembly libraries cfg none))
        (post [] [] []).0
        intruder
        (fresh libraries tt)).1.store
      ≡ (fresh libraries tt).store)
    × ((api_server libraries.outside web cfg.api_keys
          (service (assembly libraries cfg none))
          (post [] [] []).0
          intruder
          (fresh libraries tt)).1.external
        ≡ (fresh libraries tt).external)
api_server_closed_example =
    api_server_closed libraries cfg none web (post [] [] []).0 intruder (fresh libraries tt) (cc)
      foreign_key
